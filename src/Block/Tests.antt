-- ===== src/Block/Tests.antt =====
-- The theorems on block headers and indices at concrete values.
use compcache.Common.{◌≤◌, arith}
use compcache.Block.{Header, get_index, get_index_for_insert}

abbrev free_block : Header
free_block = record {
  size = 100;
  prev = 1;
  prev_page = 0;
  prev_offset = 0;
  next_page = 0;
  next_offset = 0;
}

in_order : get_index 50 ≤ get_index_for_insert 100
unfolding get_index get_index_for_insert
in_order = omega arith

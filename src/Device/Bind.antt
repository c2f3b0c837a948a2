-- ===== src/Device/Bind.antt =====
-- Chains of calls that may fault: a chain that gives a value got one from each call.
use compcache.Common.{◌≡◌, refl, Option, none, some}
use compcache.Device.{bind}

pub bind-eq-some {ℓ κ} :
    {A : Type ℓ} {B : Type κ} (m : Option A) (f : A → Option B) {b : B}
    → bind m f ≡ some b
    → (a : A) × (m ≡ some a) × (f a ≡ some b)
bind-eq-some none f e = cc
bind-eq-some (some a) f e = (a, refl, e)

-- ===== src/Keyring/Generations.antt =====
-- How a lookup of a generation meets a write through its pointer (internal/keyring/keyring.go,
-- `(*Keyring).generation`).
use reinstate.Base.{
  ℕ, ◌≡◌, refl, ◌∙◌, none, some, List, [], ◌∷◌, ◌++◌, map, arith, ◌==◌, nat_eq, bytes_eq,
  if◌then◌else◌,
}
use reinstate.Keyring.Model.{
  Text, DeviceWrap, Generation, Keyring, find_generation, generation, current, replace_generation,
  with_devices, find_device,
}

pub find_generation-number :
    (n : ℕ) (gs : List Generation) (g : Generation) → find_generation n gs ≡ some g → g.number ≡ n
unfolding find_generation
find_generation-number n [] g h = cc
find_generation-number n (x ∷ gs) g h = ground (arith, find_generation-number n gs g)

pub find-replace_generation :
    (n m : ℕ) (g g' : Generation) (gs : List Generation)
    → find_generation n gs ≡ some g
    → g'.number ≡ n
    → find_generation m (replace_generation n g' gs)
      ≡ (if n == m then some g' else find_generation m gs)
unfolding find_generation replace_generation
find-replace_generation n m g g' [] h e = cc
find-replace_generation n m g g' (x ∷ gs) h e = ground (arith, find-replace_generation n m g g' gs)

pub numbers-replace_generation :
    (n : ℕ) (g' : Generation) (gs : List Generation)
    → g'.number ≡ n
    → map (λ (g : Generation). g.number) (replace_generation n g' gs)
      ≡ map (λ (g : Generation). g.number) gs
unfolding replace_generation
numbers-replace_generation n g' [] e = refl
numbers-replace_generation n g' (x ∷ gs) e = ground (arith, numbers-replace_generation n g' gs)

-- The lookup after new devices are written to generation `n`.
pub generation-with_devices :
    (n m : ℕ) (g : Generation) (devices : List DeviceWrap) (k : Keyring)
    → generation k n ≡ some g
    → generation (with_devices n g devices k) m
      ≡ (if n == m then some (record g { devices = devices }) else generation k m)
unfolding generation with_devices
generation-with_devices n m g devices k h =
    find-replace_generation n m g (record g { devices = devices }) k.generations h
      (find_generation-number n k.generations g h)

pub find_device-append :
    (id : Text) (ds : List DeviceWrap) (w : DeviceWrap)
    → find_device id (ds ++ (w ∷ [])) ≡ elim (find_device id ds) [
      | some d ↦ some d
      | none ↦ if w.device_id == id then some w else none
    ]
unfolding find_device
find_device-append id [] w = refl
find_device-append id (d ∷ ds) w = ground (arith, find_device-append id ds w)

pub current-with_devices :
    (g : Generation) (devices : List DeviceWrap) (k : Keyring)
    → current k ≡ some g
    → current (with_devices k.current_generation g devices k)
      ≡ some (record g { devices = devices })
unfolding current
current-with_devices g devices k h =
    let n = k.current_generation in
    unfold generation with_devices in
    find-replace_generation n n g (record g { devices = devices }) k.generations h
      (find_generation-number n k.generations g h)
    ∙ ground arith

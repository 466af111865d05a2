-- ===== src/Controller/Tasks/Agree.antt =====
-- Tasks that end in the same way and in the same world.
use fabric_ops.Prelude.{◌≡◌, refl}
use fabric_ops.Controller.Tasks.{Reply, problem, value, Task, pass_on, ◌>>=◌, Gives}

module _ {W : Type 0} where
  abbrev pub Agree : {A : Type 0} → Task W A → Task W A → Type 0
  Agree f g = (w : W) → f w ≡ g w

  pub bind_known :
      {A B : Type 0} (P : A → Type 0) (task : Task W A) (next other : A → Task W B)
      → ((w : W) → Gives P (task w))
      → ((a : A) → P a → Agree (next a) (other a))
      → Agree (task >>= next) (task >>= other)
  bind_known {A = A} P task next other h same w = by_reply (task w) (h w)
    where
      by_reply : (r : Reply A × W) → Gives P r → pass_on next r ≡ pass_on other r
      by_reply (problem text, v) g = refl
      by_reply (value a, v) g = same a g v

  pub bind_any :
      {A B : Type 0} (task : Task W A) (next other : A → Task W B)
      → ((a : A) → Agree (next a) (other a))
      → Agree (task >>= next) (task >>= other)
  bind_any {A = A} task next other same w = by_reply (task w)
    where
      by_reply : (r : Reply A × W) → pass_on next r ≡ pass_on other r
      by_reply (problem text, v) = refl
      by_reply (value a, v) = same a v

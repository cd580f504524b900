-- ===== src/Common/Fallible.antt =====
-- Rust's `Result` with an error of any type, as a `do` block chains it.
use mathlib.Core.Path.{◌≡◌, refl, subst}
use native.Mathlib.Omega.{arith}

pub data Fallible (E A : Type 0) : Type 0 where
  failed : E → Fallible E A
  done : A → Fallible E A

infixl 5 ◌>>=◌ ◌>>◌
abbrev pub ◌>>=◌ : {E A B : Type 0} → Fallible E A → (A → Fallible E B) → Fallible E B
failed e >>= next = failed e
done a >>= next = next a

abbrev pub ◌>>◌ : {E A B : Type 0} → Fallible E A → Fallible E B → Fallible E B
failed e >> next = failed e
done a >> next = next

-- What a step of a `do` block that succeeds has gone on with.
pub bind_done :
    {E A B : Type 0} (m : Fallible E A) (next : A → Fallible E B) (b : B)
    → (m >>= next) ≡ done b
    → (a : A) × (m ≡ done a) × (next a ≡ done b)
bind_done (failed e) next b h = ground arith
bind_done (done a) next b h = (a, refl, h)

done_injective : {E A : Type 0} (a b : A) (m : Fallible E A) → m ≡ done a → m ≡ done b → a ≡ b
done_injective a b m h k = ground arith

-- What holds of the wrapped result of each success holds of the result.
pub bind_holds :
    {E A B : Type 0} (P : B → Type 0) (wrap : A → B) (m : Fallible E A) (b : B)
    → ((a : A) → m ≡ done a → P (wrap a))
    → (m >>= λ a. done (wrap a)) ≡ done b
    → P b
bind_holds P wrap (failed e) b holds h = ground arith
bind_holds P wrap (done a) b holds h =
    subst P (done_injective (wrap a) b (done (wrap a)) refl h) (holds a refl)

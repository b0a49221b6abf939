-- ===== src/Config/Ensures.antt =====
-- What holds of a configuration, or a part of one, if it is loaded: one rule for each construct.
use glb_director.Base.{◌≡◌, Option, Bool, some, false, true, none, subst, refl, if◌then◌else◌}
use glb_director.Config.Json.{
  Loading, loaded, null, exits, faults, ◌>>=◌, null_if, >>=-eq-loaded, loaded_inj,
}
use glb_director.Config.Load.{or_else, exits_if}

-- A result that is loaded, if one is, has the property.
abbrev pub Ensures {ℓ} : {A : Type ℓ} → (A → Type 0) → Loading A → Type ℓ
Ensures {A} P m = (a : A) → m ≡ loaded a → P a

pub bind-Ensures :
    {A B : Type 0} (P : B → Type 0) (m : Loading A) (f : A → Loading B)
    → ((a : A) → m ≡ loaded a → Ensures P (f a))
    → Ensures P (m >>= f)
bind-Ensures P m f h b e = let (a, e1, e2) = >>=-eq-loaded m f b e in h a e1 b e2

pub loaded-Ensures : {A : Type 0} (P : A → Type 0) (a : A) → P a → Ensures P (loaded a)
loaded-Ensures P a h b e = subst P (loaded_inj e) h

pub null-Ensures : {A : Type 0} (P : A → Type 0) → Ensures P null
null-Ensures P a e = cc

pub exits-Ensures : {A : Type 0} (P : A → Type 0) → Ensures P exits
exits-Ensures P a e = cc

pub faults-Ensures : {A : Type 0} (P : A → Type 0) → Ensures P faults
faults-Ensures P a e = cc

pub null_if-Ensures :
    {A : Type 0} (P : A → Type 0) (b : Bool) (m : Loading A) → Ensures P m → Ensures P (null_if b m)
null_if-Ensures P true m h = null-Ensures P
null_if-Ensures P false m h = h

pub exits_if-Ensures :
    {A : Type 0} (P : A → Type 0) (b : Bool) (m : Loading A)
    → Ensures P m
    → Ensures P (exits_if b m)
exits_if-Ensures P true m h = exits-Ensures P
exits_if-Ensures P false m h = h

pub or_else-Ensures :
    {A B : Type 0} (P : B → Type 0) (m : Loading B) (o : Option A) (f : A → Loading B)
    → Ensures P m
    → ((a : A) → Ensures P (f a))
    → Ensures P (or_else m o f)
or_else-Ensures P m none f h k = h
or_else-Ensures P m (some a) f h k = k a

pub if-Ensures :
    {A : Type 0} (P : A → Type 0) (b : Bool) (x y : Loading A)
    → (b ≡ true → Ensures P x)
    → (b ≡ false → Ensures P y)
    → Ensures P (if b then x else y)
if-Ensures P true x y h k = h refl
if-Ensures P false x y h k = k refl

-- ===== src/Config/Json.antt =====
-- What the configuration is read with: the functions of the JSON library that the code calls, and the
-- results of a load. The library and the parsers of addresses are parameters.
use Prim.Native.String.{String}
use glb_director.Base.{
  ℕ, List, Option, Bool, ◌≡◌, true, refl, false, some, none, if◌then◌else◌, length, ltb, ◌≤◌,
  Bool-cases, inl, inr, arith,
}

-- The calls of jansson, on pointers to values: `none` is NULL. An integer is the 64 bits of its value.
pub record Jansson (J : Type 0) : Type 0 where
  pub json_object_get : Option J → String → Option J
  pub json_array_size : Option J → ℕ
  pub json_array_get : Option J → ℕ → Option J
  pub json_is_array : Option J → Bool
  pub json_is_integer : Option J → Bool
  pub json_is_number : Option J → Bool
  pub json_is_string : Option J → Bool
  pub json_is_true : Option J → Bool
  pub json_is_false : Option J → Bool
  pub json_integer_value : Option J → ℕ
  pub json_string_value : Option J → String

-- cmdline_parse_etheraddr and inet_pton for IPv4: `none` where they fail.
pub record Addresses : Type 0 where
  pub cmdline_parse_etheraddr : String → Option (List ℕ)
  pub inet_pton : String → Option ℕ

-- How loading goes on: a value, NULL for the caller, the end of the process, or a write behind an
-- array.
pub data Loading {ℓ} (A : Type ℓ) : Type ℓ where
  loaded : A → Loading A
  null : Loading A
  exits : Loading A
  faults : Loading A

infixl 5 ◌>>=◌
abbrev pub ◌>>=◌ {ℓ κ} : {A : Type ℓ} {B : Type κ} → Loading A → (A → Loading B) → Loading B
loaded a >>= f = f a
null >>= f = null
exits >>= f = exits
faults >>= f = faults

pub >>=-eq-loaded {ℓ κ} :
    {A : Type ℓ} {B : Type κ} (m : Loading A) (f : A → Loading B) (b : B)
    → (m >>= f) ≡ loaded b
    → (a : A) × (m ≡ loaded a) × (f a ≡ loaded b)
>>=-eq-loaded (loaded a) f b h = (a, refl, h)
>>=-eq-loaded null f b h = cc
>>=-eq-loaded exits f b h = cc
>>=-eq-loaded faults f b h = cc

-- An error that is logged, after which NULL is returned.
abbrev pub null_if {ℓ} : {A : Type ℓ} → Bool → Loading A → Loading A
null_if true m = null
null_if false m = m

pub null_if-eq-loaded {ℓ} :
    {A : Type ℓ} (b : Bool) (m : Loading A) (a : A)
    → null_if b m ≡ loaded a
    → (b ≡ false) × (m ≡ loaded a)
null_if-eq-loaded true m a h = cc
null_if-eq-loaded false m a h = (refl, h)

pub loaded_inj {ℓ} : {A : Type ℓ} {a b : A} → loaded a ≡ loaded b → a ≡ b
loaded_inj h = cc

-- `item != NULL && test(item)`
abbrev pub given : {J : Type 0} → (Option J → Bool) → Option J → Bool
given test none = false
given test (some item) = test (some item)

-- The elements that are written to an array of a size, one after the other.
abbrev pub stored_in {ℓ} : {A : Type ℓ} → ℕ → List A → Loading (List A)
stored_in size xs = if ltb size (length xs) then faults else loaded xs

pub stored_in-eq-loaded {ℓ} :
    {A : Type ℓ} (size : ℕ) (xs ys : List A)
    → stored_in size xs ≡ loaded ys
    → (xs ≡ ys) × (length xs ≤ size)
stored_in-eq-loaded size xs ys e = elim (Bool-cases (ltb size (length xs))) [
  | inl more ↦ let h = rw more at e in cc
  | inr fit ↦ (loaded_inj (rw fit at e), ground arith)
]

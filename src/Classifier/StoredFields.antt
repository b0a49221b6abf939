-- ===== src/Classifier/StoredFields.antt =====
-- What the fields of a rule match as they are stored, when a bind's numbers fit them.
use glb_director.Base.{ℕ, ◌<◌, ◌^◌, List, true, arith, ◌≡◌, get_or, drop, ◌==◌, ap, ◌∙◌, ◌%◌, ap₂}
use glb_director.FwdConfig.{Bind}
use glb_director.Base.Bytes.{swap32, IsByte, swap16-lt, load, swap32-lt}
use glb_director.Classifier.Match.{in_range, in_cidr, has_bits, read_field}
use glb_director.Classifier.Rules.{ipv6_cidr_offset}
use glb_director.Base.Bits.{bit_and_mask}
use glb_director.Classifier.Cidr.{ipv6_cidr_offset-le}

-- A bind's numbers fit the fields that hold them.
abbrev pub FitsBind : Bind → Type 0
FitsBind b =
    (b.proto < 2 ^ 8) × (b.port_start < 2 ^ 16) × (b.port_end < 2 ^ 16) × (b.ip_bits < 2 ^ 16)

pub any_port : (o : ℕ) (p : List ℕ) → in_range 0 0xffff (read_field 2 o p) ≡ true
unfolding in_range read_field
any_port o p = let h = swap16-lt (load 2 (drop o p)) in ground arith

pub any_addr : (o : ℕ) (p : List ℕ) → in_cidr 0 0 (read_field 4 o p) ≡ true
unfolding in_cidr read_field
any_addr o p = let h = swap32-lt (load 4 (drop o p)) in ground arith

pub whole_byte :
    (v : ℕ) (p : List ℕ)
    → IsByte (get_or p 0 0)
    → has_bits v 0xff (read_field 1 0 p) ≡ (get_or p 0 0 == v)
unfolding has_bits read_field
whole_byte v p byte = ap (λ x. x == v) (bit_and_mask 8 (get_or p 0 0) ∙ omega arith)

-- A mask of the whole address or less, and a range of ports, as they are stored.
pub fit_range :
    (b : Bind)
    → FitsBind b
    → (v : ℕ)
    → in_range (b.port_start % 2 ^ 16) (b.port_end % 2 ^ 16) v ≡ in_range b.port_start b.port_end v
fit_range b fits v = ap₂ (λ l h. in_range l h v) (omega arith) (omega arith)

pub fit_cidr :
    (b : Bind)
    → FitsBind b
    → (v a : ℕ)
    → in_cidr (swap32 v % 2 ^ 32) (b.ip_bits % 2 ^ 32) a ≡ in_cidr (swap32 v) b.ip_bits a
fit_cidr b fits v a = let h = swap32-lt v in ap₂ (λ n l. in_cidr n l a) (omega arith) (omega arith)

pub fit_word :
    (b : Bind) (o v a : ℕ)
    → in_cidr (swap32 v % 2 ^ 32) (ipv6_cidr_offset b.ip_bits o % 2 ^ 32) a
      ≡ in_cidr (swap32 v) (ipv6_cidr_offset b.ip_bits o) a
fit_word b o v a =
    let h = swap32-lt v in
    ap₂ (λ n l. in_cidr n l a) (omega arith) (omega (arith, ipv6_cidr_offset-le b.ip_bits o))

pub fit_proto : (b : Bind) → FitsBind b → b.proto % 2 ^ 8 ≡ b.proto
fit_proto b fits = omega arith

pub exact_port : (v o : ℕ) (p : List ℕ) → in_range v v (read_field 2 o p) ≡ (read_field 2 o p == v)
unfolding in_range
exact_port v o p = ground arith

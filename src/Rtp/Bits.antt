-- ===== src/Rtp/Bits.antt =====
-- rtspProtocon/rtp.go: the two bytes of flags of a header, packed and unpacked. The facts are
-- checked over all values of the fields and of the bytes.
use rtsp_go.Base.{
  ℕ, ◌<◌, ◌≡◌, refl, Bool, true, false, ◌&&◌, arith, ◌==◌, ==_iff, ltb, ltb→lt, all_below,
  all_below_sound,
}
use rtsp_go.Rtp.{
  first_byte, second_byte, version_bits, padding_bit, extension_bit, cc_bits, marker_bit,
  payload_type_bits,
}

abbrev same : Bool → Bool → Bool
same true b = b
same false true = false
same false false = true

same→eq : (a b : Bool) → same a b ≡ true → a ≡ b
same→eq a b h = ground arith

over_fields : (Bool → Bool → ℕ → ℕ → Bool) → Bool → Bool → Bool
over_fields f p e = all_below 4 (λ v. all_below 16 (f p e v))

over_all : (Bool → Bool → ℕ → ℕ → Bool) → Bool
unfolding over_fields
over_all f =
    over_fields f true true
    && over_fields f true false
    && over_fields f false true
    && over_fields f false false

over_fields_sound :
    (f : Bool → Bool → ℕ → ℕ → Bool) (p e : Bool) (v c : ℕ)
    → over_fields f p e ≡ true
    → v < 4
    → c < 16
    → f p e v c ≡ true
unfolding over_fields
over_fields_sound f p e v c h hv hc =
    all_below_sound 16 (f p e v) c (all_below_sound 4 (λ w. all_below 16 (f p e w)) v h hv) hc

over_all_sound :
    (f : Bool → Bool → ℕ → ℕ → Bool) (p e : Bool) (v c : ℕ)
    → over_all f ≡ true
    → v < 4
    → c < 16
    → f p e v c ≡ true
unfolding over_all
over_all_sound f p e v c h hv hc = over_fields_sound f p e v c (pick p e h) hv hc
  where
    pick : (p e : Bool) → over_all f ≡ true → over_fields f p e ≡ true
    pick true true h = ground arith
    pick true false h = ground arith
    pick false true h = ground arith
    pick false false h = ground arith

module _ (v : ℕ) (p e : Bool) (c : ℕ) (hv : v < 4) (hc : c < 16) where
  pub version-first_byte : version_bits (first_byte v p e c) ≡ v
  unfolding over_all all_below version_bits first_byte
  version-first_byte = (==_iff _ v).0 (
      over_all_sound (λ p' e' v' c'. version_bits (first_byte v' p' e' c') == v') p e v c refl hv
        hc)

  pub padding-first_byte : padding_bit (first_byte v p e c) ≡ p
  unfolding over_all all_below padding_bit first_byte
  padding-first_byte = same→eq _ p (
      over_all_sound (λ p' e' v' c'. same (padding_bit (first_byte v' p' e' c')) p') p e v c refl hv
        hc)

  pub extension-first_byte : extension_bit (first_byte v p e c) ≡ e
  unfolding over_all all_below extension_bit first_byte
  extension-first_byte = same→eq _ e (
      over_all_sound (λ p' e' v' c'. same (extension_bit (first_byte v' p' e' c')) e') p e v c refl
        hv hc)

  pub cc-first_byte : cc_bits (first_byte v p e c) ≡ c
  unfolding over_all all_below cc_bits first_byte
  cc-first_byte =
      (==_iff _ c).0
        (over_all_sound (λ p' e' v' c'. cc_bits (first_byte v' p' e' c') == c') p e v c refl hv hc)

  pub first_byte-lt : first_byte v p e c < 256
  unfolding over_all all_below first_byte
  first_byte-lt =
      ltb→lt _ 256
        (over_all_sound (λ p' e' v' c'. ltb (first_byte v' p' e' c') 256) p e v c refl hv hc)

pub marker-second_byte : (m : Bool) (pt : ℕ) → pt < 128 → marker_bit (second_byte m pt) ≡ m
unfolding all_below marker_bit second_byte
marker-second_byte true pt h =
    same→eq _ true
      (all_below_sound 128 (λ t. same (marker_bit (second_byte true t)) true) pt refl h)
marker-second_byte false pt h =
    same→eq _ false
      (all_below_sound 128 (λ t. same (marker_bit (second_byte false t)) false) pt refl h)

pub payload_type-second_byte :
    (m : Bool) (pt : ℕ) → pt < 128 → payload_type_bits (second_byte m pt) ≡ pt
unfolding all_below payload_type_bits second_byte
payload_type-second_byte true pt h =
    (==_iff _ pt).0
      (all_below_sound 128 (λ t. payload_type_bits (second_byte true t) == t) pt refl h)
payload_type-second_byte false pt h =
    (==_iff _ pt).0
      (all_below_sound 128 (λ t. payload_type_bits (second_byte false t) == t) pt refl h)

pub second_byte-lt : (m : Bool) (pt : ℕ) → pt < 128 → second_byte m pt < 256
unfolding all_below second_byte
second_byte-lt true pt h =
    ltb→lt _ 256 (all_below_sound 128 (λ t. ltb (second_byte true t) 256) pt refl h)
second_byte-lt false pt h =
    ltb→lt _ 256 (all_below_sound 128 (λ t. ltb (second_byte false t) 256) pt refl h)

-- Packing what was unpacked gives the byte back.
pub first_byte_again :
    (b : ℕ)
    → b < 256
    → first_byte (version_bits b) (padding_bit b) (extension_bit b) (cc_bits b) ≡ b
unfolding all_below first_byte version_bits padding_bit extension_bit cc_bits
first_byte_again b h = (==_iff _ b).0 (
    all_below_sound 256
      (λ x. first_byte (version_bits x) (padding_bit x) (extension_bit x) (cc_bits x) == x) b refl
      h)

pub second_byte_again : (b : ℕ) → b < 256 → second_byte (marker_bit b) (payload_type_bits b) ≡ b
unfolding all_below second_byte marker_bit payload_type_bits
second_byte_again b h =
    (==_iff _ b).0
      (all_below_sound 256 (λ x. second_byte (marker_bit x) (payload_type_bits x) == x) b refl h)

pub version_bits-lt : (b : ℕ) → b < 256 → version_bits b < 4
unfolding all_below version_bits
version_bits-lt b h = ltb→lt _ 4 (all_below_sound 256 (λ x. ltb (version_bits x) 4) b refl h)

pub cc_bits-lt : (b : ℕ) → b < 256 → cc_bits b < 16
unfolding all_below cc_bits
cc_bits-lt b h = ltb→lt _ 16 (all_below_sound 256 (λ x. ltb (cc_bits x) 16) b refl h)

pub payload_type_bits-lt : (b : ℕ) → b < 256 → payload_type_bits b < 128
unfolding all_below payload_type_bits
payload_type_bits-lt b h =
    ltb→lt _ 128 (all_below_sound 256 (λ x. ltb (payload_type_bits x) 128) b refl h)

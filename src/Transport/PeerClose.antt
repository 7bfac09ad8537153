-- ===== src/Transport/PeerClose.antt =====
-- src/transport/peer_close.h: the reason phrase of a peer's close as it reaches a log. Texts are the
-- lists of their bytes.
use moqxr.Common.{
  ℕ, zero, suc, ◌+◌, ◌-◌, ◌*◌, ◌/◌, ◌%◌, ◌≤◌, ◌<◌, ◌≡◌, ◌≢◌, refl, ap, ◌∙◌, Bool, true, false, not,
  ◌&&◌, List, [], ◌∷◌, ◌++◌, arith, ltb, leb, ◌==◌, if◌then◌else◌, length, take, All, length-append,
}
use moqxr.Common.{All-append, take-length, take-All}
use moqxr.Common.Bytes.{IsByte}

-- kMaxReasonBytes
abbrev max_reason_bytes : ℕ
max_reason_bytes = 256

-- A digit of %02x.
unfoldable pub hex_digit : ℕ → ℕ
hex_digit d = if ltb d 10 then 48 + d else 87 + d

unfoldable pub is_plain : ℕ → Bool
is_plain c = leb 0x20 c && ltb c 0x7f && not (c == 34) && not (c == 92)

-- One round of the loop: the byte itself, or "\x" with two digits.
unfoldable pub printable_byte : ℕ → List ℕ
printable_byte c =
    if is_plain c then c ∷ [] else 92 ∷ 120 ∷ hex_digit (c / 16) ∷ hex_digit (c % 16) ∷ []

unfoldable pub printable_bytes : List ℕ → List ℕ
printable_bytes [] = []
printable_bytes (c ∷ cs) = printable_byte c ++ printable_bytes cs

unfoldable pub printable_reason : List ℕ → List ℕ
printable_reason reason =
    let limit = if ltb max_reason_bytes (length reason) then max_reason_bytes else length reason in
    let out = printable_bytes (take limit reason) in
    if ltb limit (length reason) then out ++ 46 ∷ 46 ∷ 46 ∷ [] else out

-- Printable ASCII other than the quote that ends the phrase.
abbrev IsPrintable : ℕ → Type 0
IsPrintable c = (0x20 ≤ c) × (c < 0x7f) × (c ≢ 34)

printable_byte-IsPrintable : (c : ℕ) → IsByte c → All IsPrintable (printable_byte c)
unfolding printable_byte is_plain hex_digit
printable_byte-IsPrintable c h = ground arith

printable_bytes-IsPrintable : (cs : List ℕ) → All IsByte cs → All IsPrintable (printable_bytes cs)
unfolding printable_bytes
printable_bytes-IsPrintable [] h = tt
printable_bytes-IsPrintable (c ∷ cs) h =
    All-append IsPrintable (printable_byte c) (printable_bytes cs)
      (printable_byte-IsPrintable c h.0) (printable_bytes-IsPrintable cs h.1)

printable_byte-length : (c : ℕ) → length (printable_byte c) ≤ 4
unfolding printable_byte
printable_byte-length c = ground arith

printable_bytes-length : (cs : List ℕ) → length (printable_bytes cs) ≤ 4 * length cs
unfolding printable_bytes
printable_bytes-length [] = omega arith
printable_bytes-length (c ∷ cs) = ground (
  arith,
  length-append (printable_byte c) (printable_bytes cs),
  printable_byte-length c,
  printable_bytes-length cs,
)

length-take_le : (n : ℕ) (cs : List ℕ) → length (take n cs) ≤ n
length-take_le zero cs = omega arith
length-take_le (suc n) [] = omega arith
length-take_le (suc n) (c ∷ cs) = omega (arith, length-take_le n cs)

-- For any bytes from the network, what reaches the log is printable ASCII without a quote, and its
-- length is at most 1027.
printable_reason-IsPrintable :
    (reason : List ℕ)
    → All IsByte reason
    → All IsPrintable (printable_reason reason) × (length (printable_reason reason) ≤ 1027)
unfolding printable_reason
printable_reason-IsPrintable reason h =
    let limit = if ltb max_reason_bytes (length reason) then max_reason_bytes else length reason in
    let out = printable_bytes (take limit reason) in
    let printable =
      printable_bytes-IsPrintable (take limit reason) (take-All IsByte limit reason h) in
    let dots : All IsPrintable (46 ∷ 46 ∷ 46 ∷ []) = ground arith in
    ground (
      arith,
      printable,
      All-append IsPrintable out (46 ∷ 46 ∷ 46 ∷ []) printable dots,
      length-append out (46 ∷ 46 ∷ 46 ∷ []),
      printable_bytes-length (take limit reason),
      length-take_le limit reason,
    )

-- How an escaped phrase is read: where the reader stands, with the first digit's value.
pub data Escape : Type 0 where
  outside backslash letter : Escape
  digit : ℕ → Escape

hex_value : ℕ → ℕ
hex_value c = if ltb c 58 then c - 48 else c - 87

pub unescape : Escape → List ℕ → List ℕ
unescape state [] = []
unescape outside (c ∷ cs) = elim (c == 92) [
  | true ↦ unescape backslash cs
  | false ↦ c ∷ unescape outside cs
]
unescape backslash (c ∷ cs) = unescape letter cs
unescape letter (c ∷ cs) = unescape (digit (hex_value c)) cs
unescape (digit high) (c ∷ cs) = (high * 16 + hex_value c) ∷ unescape outside cs

hex_value-digit : (d : ℕ) → d < 16 → hex_value (hex_digit d) ≡ d
unfolding hex_value hex_digit
hex_value-digit d h = ground arith

unescape-byte :
    (c : ℕ) (rest : List ℕ)
    → IsByte c
    → unescape outside (printable_byte c ++ rest) ≡ c ∷ unescape outside rest
unfolding printable_byte unescape is_plain
unescape-byte c rest h = ground (arith, hex_value-digit (c / 16), hex_value-digit (c % 16))

unescape-bytes : (cs : List ℕ) → All IsByte cs → unescape outside (printable_bytes cs) ≡ cs
unfolding printable_bytes unescape
unescape-bytes [] h = refl
unescape-bytes (c ∷ cs) h =
    unescape-byte c (printable_bytes cs) h.0 ∙ ap (◌∷◌ c) (unescape-bytes cs h.1)

-- A phrase of at most 256 bytes can be read back from the log.
pub unescape-printable_reason :
    (reason : List ℕ)
    → All IsByte reason
    → length reason ≤ max_reason_bytes
    → unescape outside (printable_reason reason) ≡ reason
unfolding printable_reason
unescape-printable_reason reason h short =
    ground (arith, take-length reason, unescape-bytes reason h)

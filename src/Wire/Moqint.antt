-- ===== src/Wire/Moqint.antt =====
-- The integers of a draft in moqt_control_messages.cpp: vi64 from draft 17 on, the QUIC varint
-- before; append_moqint and decode_moqint_impl.
pub mod RoundTrip
use moqxr.Common.{
  ℕ, zero, suc, ◌+◌, ◌-◌, ◌*◌, ◌/◌, ◌%◌, ◌^◌, ◌≤◌, ◌<◌, ◌≡◌, ◌≢◌, ◌⊎◌, inl, inr, refl, sym, ap, ◌∙◌,
  Bool, true, false, not, ◌&&◌, ◌||◌, Option, none, some, List, [], ◌∷◌, ◌++◌, map, arith, ltb, leb,
  ◌==◌, if◌then◌else◌, length, get_or, take, drop, All, get_or-append, length-append, append-nil,
  append_assoc, Bool-cases, Option-cases, ◌>>=◌,
}
use moqxr.Draft.{DraftVersion, is_draft17, is_draft18_or_later}
use moqxr.Wire.Varint.{append_varint, decode_varint_impl}
use moqxr.Wire.Vi64.{append_vi64, decode_vi64_impl}

abbrev pub uses_moq_vi64 : DraftVersion → Bool
uses_moq_vi64 draft = is_draft17 draft || is_draft18_or_later draft

unfoldable pub append_moqint : List ℕ → DraftVersion → ℕ → Option (List ℕ)
append_moqint out draft value =
    if uses_moq_vi64 draft then some (append_vi64 out value) else append_varint out value

-- The buffer after a call whose result the caller drops: a refused value adds nothing.
unfoldable pub push_moqint : List ℕ → DraftVersion → ℕ → List ℕ
push_moqint out draft value = elim (append_moqint out draft value) [ none ↦ out | some out' ↦ out' ]

unfoldable pub decode_moqint_impl : List ℕ → ℕ → DraftVersion → Option (ℕ × ℕ)
decode_moqint_impl bytes offset draft =
    if uses_moq_vi64 draft then decode_vi64_impl bytes offset else decode_varint_impl bytes offset

-- One more than the largest value the draft's integers carry.
abbrev pub moqint_limit : DraftVersion → ℕ
moqint_limit draft = if uses_moq_vi64 draft then 2 ^ 64 else 2 ^ 62

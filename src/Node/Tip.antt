-- ===== src/Node/Tip.antt =====
-- node/node.go: what a peer's announced tip makes the node do (tipAhead, and the first part of
-- syncWithPeerOnce).
use cereblix.Prelude.{
  ◌≡◌, ◌↔◌, ◌⊎◌, inl, inr, refl, sym, ℕ, ◌+◌, ◌*◌, Bool, true, false, not, ◌&&◌, ◌||◌, Option, none,
  some, [], ◌∷◌, length, ltb, ◌==◌, if◌then◌else◌,
}
use cereblix.Prelude.Bytes.{Bytes, bytes_eq, bytes_ltb, bytes_eq_iff, bytes_ltb_irrefl}
use cereblix.Prelude.Text.{hex_value}
use cereblix.Node.{TipInfo}

-- a number with a sign, as big.Int has it
pub data Signed : Type 0 where
  plus minus : ℕ → Signed

-- big.Int.SetString in base 16, after the sign
unfoldable pub hex_number : ℕ → Bytes → Option ℕ
hex_number acc [] = some acc
hex_number acc (c ∷ s) = elim (hex_value c) [ none ↦ none | some v ↦ hex_number (16 * acc + v) s ]

abbrev digits_of : Bytes → Option ℕ
digits_of [] = none
digits_of (c ∷ s) = hex_number 0 (c ∷ s)

abbrev signed : (ℕ → Signed) → Option ℕ → Option Signed
signed sign none = none
signed sign (some n) = some (sign n)

unfoldable pub parse_work : Bytes → Option Signed
unfolding hex_number
parse_work [] = none
parse_work (c ∷ s) =
    if c == b'-'
    then signed minus (digits_of s)
    else if c == b'+'
    then signed plus (digits_of s)
    else signed plus (digits_of (c ∷ s))

-- `theirs.Cmp(ours) > 0`, and `== 0`
abbrev pub more_than : Signed → ℕ → Bool
more_than (plus t) ours = ltb ours t
more_than (minus t) ours = false

abbrev pub same_as : Signed → ℕ → Bool
same_as (plus t) ours = t == ours
same_as (minus t) ours = t == 0 && ours == 0

-- tipAhead
unfoldable pub tip_ahead : Bytes → Bytes → ℕ → Bytes → Bool
unfolding parse_work
tip_ahead cum_work hash our_work our_hash =
    if ltb 80 (length cum_work) then false else elim (parse_work cum_work) [
      | none ↦ false
      | some w ↦ more_than w our_work || (same_as w our_work && bytes_ltb hash our_hash)
    ]

-- what the first part of syncWithPeerOnce decides: to do nothing, to push our tip to the peer, or to
-- go on
pub data Verdict : Type 0 where
  ignore push_tip : Verdict
  pursue : Signed → Verdict

abbrev judge : Signed → Bytes → ℕ → Bytes → Verdict
judge w hash our_work our_hash =
    if more_than w our_work
    then pursue w
    else if not (same_as w our_work)
    then ignore
    else if bytes_eq hash our_hash
    then ignore
    else if not (bytes_ltb hash our_hash)
    then push_tip
    else pursue w

unfoldable pub classify : TipInfo → ℕ → Bytes → Verdict
unfolding parse_work
classify their our_work our_hash =
    if ltb 80 (length their.cum_work) then ignore else elim (parse_work their.cum_work) [
      | none ↦ ignore
      | some w ↦ judge w their.hash our_work our_hash
    ]

IsPursuit : Verdict → Type 0
IsPursuit v = (w : Signed) × (v ≡ pursue w)

false_iff : (v : Verdict) → (v ≡ ignore) ⊎ (v ≡ push_tip) → (false ≡ true) ↔ IsPursuit v
unfolding IsPursuit
false_iff v (inl e) = (λ h. cc, λ h. cc)
false_iff v (inr e) = (λ h. cc, λ h. cc)

verdict_cases :
    (w : Signed) (more same equal less : Bool)
    → (equal ≡ true → less ≡ false)
    → ((more || (same && less)) ≡ true)
      ↔ IsPursuit (
          if more
          then pursue w
          else if not same
          then ignore
          else if equal
          then ignore
          else if not less
          then push_tip
          else pursue w)
unfolding IsPursuit
verdict_cases w true same equal less h = (λ _. (w, refl), λ _. refl)
verdict_cases w false false equal less h = false_iff ignore (inl refl)
verdict_cases w false true true true h =
    let no : true ≡ false = h refl in (λ e. absurd cc, λ e. absurd cc)
verdict_cases w false true true false h = false_iff ignore (inl refl)
verdict_cases w false true false false h = false_iff push_tip (inr refl)
verdict_cases w false true false true h = (λ _. (w, refl), λ _. refl)

equal_not_less : (s t : Bytes) → bytes_eq s t ≡ true → bytes_ltb s t ≡ false
equal_not_less s t e =
    let same : s ≡ t = (bytes_eq_iff s t).0 e in rw (sym same) (bytes_ltb_irrefl s)

-- On every announced tip, the filter that drops announcements passes a tip exactly when the
-- comparison of works and hashes that starts syncWithPeerOnce goes on with it. Whether the tip is
-- noted as one that the peer cannot make us adopt is decided after that comparison.
pub tip_ahead_iff :
    (their : TipInfo) (our_work : ℕ) (our_hash : Bytes)
    → (tip_ahead their.cum_work their.hash our_work our_hash ≡ true)
      ↔ ((w : Signed) × (classify their our_work our_hash ≡ pursue w))
unfolding tip_ahead classify IsPursuit
tip_ahead_iff their our_work our_hash =
    by_parts (ltb 80 (length their.cum_work)) (parse_work their.cum_work)
  where
    ahead : Bool → Option Signed → Bool
    ahead long parsed = if long then false else elim parsed [
      | none ↦ false
      | some w ↦ more_than w our_work || (same_as w our_work && bytes_ltb their.hash our_hash)
    ]

    verdict : Bool → Option Signed → Verdict
    verdict long parsed =
        if long
        then ignore
        else elim parsed [ none ↦ ignore | some w ↦ judge w their.hash our_work our_hash ]

    by_parts :
        (long : Bool) (parsed : Option Signed)
        → (ahead long parsed ≡ true) ↔ IsPursuit (verdict long parsed)
    by_parts true parsed = false_iff ignore (inl refl)
    by_parts false none = false_iff ignore (inl refl)
    by_parts false (some w) =
        verdict_cases w (more_than w our_work) (same_as w our_work) (bytes_eq their.hash our_hash)
          (bytes_ltb their.hash our_hash) (equal_not_less their.hash our_hash)

-- ===== src/Ledger/Balanced.antt =====
-- What the checks of `Post` accept, against sums of debits and credits (validateBalance).
use payment_engine_v.Base.{
  ℕ, suc, ℤ, pos, ◌+ℤ◌, ◌-ℤ◌, ◌≤ℤ◌, int_laws, parts_of, String, true, Option, none, some, List, [],
  ◌∷◌, if◌then◌else◌, str_eq, eq_iff, eq_refl, ◌≡◌, ◌≢◌, ◌↔◌, inl, inr, refl, arith, All,
  Bool-cases, Option-cases,
}
use payment_engine_v.Ledger.Tables.{debit, credit, other, Entry, or_zero}
use payment_engine_v.Ledger.Post.{
  is_direction, entry_flaw, validate_entries, applied, add_to_sum, asset_sums, first_nonzero,
  validate_balance, validate,
}

-- What one entry adds to the debits and to the credits of an asset.
abbrev pub debit_of : String → Entry → ℤ
debit_of asset e =
    if str_eq e.asset_code asset
    then elim e.direction [ debit ↦ e.amount | credit ↦ pos 0 | other _ ↦ pos 0 ]
    else pos 0

abbrev pub credit_of : String → Entry → ℤ
credit_of asset e =
    if str_eq e.asset_code asset
    then elim e.direction [ debit ↦ pos 0 | credit ↦ e.amount | other _ ↦ e.amount ]
    else pos 0

unfoldable pub debits : String → List Entry → ℤ
debits asset [] = pos 0
debits asset (e ∷ es) = debit_of asset e +ℤ debits asset es

unfoldable pub credits : String → List Entry → ℤ
credits asset [] = pos 0
credits asset (e ∷ es) = credit_of asset e +ℤ credits asset es

abbrev lookup_sum : String → List (String × ℤ) → Option ℤ
lookup_sum asset [] = none
lookup_sum asset ((k, v) ∷ sums) = if str_eq k asset then some v else lookup_sum asset sums

abbrev IsMap : List (String × ℤ) → Type 0
IsMap [] = Unit
IsMap ((k, _) ∷ sums) = (lookup_sum k sums ≡ none) × IsMap sums

lookup_sum-add_to_sum :
    (asset : String) (e : Entry) (sums : List (String × ℤ))
    → lookup_sum asset (add_to_sum e sums) ≡ (
        if str_eq e.asset_code asset
        then some (applied e.direction (or_zero (lookup_sum asset sums)) e.amount)
        else lookup_sum asset sums)
unfolding add_to_sum
lookup_sum-add_to_sum asset e [] = ground arith
lookup_sum-add_to_sum asset e ((k, v) ∷ sums) = ground (
  arith,
  lookup_sum-add_to_sum asset e sums,
  eq_iff e.asset_code k,
  eq_iff e.asset_code asset,
  eq_iff k asset,
)

add_to_sum-IsMap : (e : Entry) (sums : List (String × ℤ)) → IsMap sums → IsMap (add_to_sum e sums)
unfolding add_to_sum
add_to_sum-IsMap e [] h = (refl, tt)
add_to_sum-IsMap e ((k, v) ∷ sums) h =
    ground
      (arith, add_to_sum-IsMap e sums h.1, lookup_sum-add_to_sum k e sums, eq_iff e.asset_code k)

first_nonzero_zero :
    (sums : List (String × ℤ)) (asset : String)
    → first_nonzero sums ≡ none
    → or_zero (lookup_sum asset sums) ≡ pos 0
unfolding first_nonzero
first_nonzero_zero [] asset h = refl
first_nonzero_zero ((k, v) ∷ sums) asset h = ground (arith, first_nonzero_zero sums asset)

-- A key that the head of a map takes is not below it.
lookup_sum_tail :
    (k asset : String) (v : ℤ) (sums : List (String × ℤ))
    → lookup_sum k sums ≡ none
    → or_zero (lookup_sum asset ((k, v) ∷ sums)) ≡ pos 0
    → or_zero (lookup_sum asset sums) ≡ pos 0
lookup_sum_tail k asset v sums m h = elim (Bool-cases (str_eq k asset)) [
  | inl same ↦ rw (← (eq_iff k asset).0 same) (rw m refl)
  | inr differ ↦ ground arith
]

zero_first_nonzero :
    (sums : List (String × ℤ))
    → IsMap sums
    → ((asset : String) → or_zero (lookup_sum asset sums) ≡ pos 0)
    → first_nonzero sums ≡ none
unfolding first_nonzero
zero_first_nonzero [] m h = refl
zero_first_nonzero ((k, v) ∷ sums) m h = ground (
  arith,
  h k,
  eq_refl k,
  zero_first_nonzero sums m.1 (λ asset. lookup_sum_tail k asset v sums m.0 (h asset)),
)

asset_sums-IsMap :
    (sums : List (String × ℤ)) (es : List Entry) → IsMap sums → IsMap (asset_sums sums es)
unfolding asset_sums
asset_sums-IsMap sums [] h = h
asset_sums-IsMap sums (e ∷ es) h =
    asset_sums-IsMap (add_to_sum e sums) es (add_to_sum-IsMap e sums h)

-- One entry moves the sum of its asset, whichever branch recorded it.
sum-add_to_sum :
    (asset : String) (e : Entry) (sums : List (String × ℤ))
    → or_zero (lookup_sum asset (add_to_sum e sums))
      ≡ or_zero (lookup_sum asset sums) +ℤ (debit_of asset e -ℤ credit_of asset e)
sum-add_to_sum asset e sums = grind (int_laws, lookup_sum-add_to_sum asset e sums)

lookup_sum-asset_sums :
    (asset : String) (sums : List (String × ℤ)) (es : List Entry)
    → or_zero (lookup_sum asset (asset_sums sums es)) +ℤ credits asset es
      ≡ or_zero (lookup_sum asset sums) +ℤ debits asset es
unfolding asset_sums debits credits
lookup_sum-asset_sums asset sums [] = refl
lookup_sum-asset_sums asset sums (e ∷ es) = omega (
  int_laws,
  parts_of (sum-add_to_sum asset e sums),
  parts_of (lookup_sum-asset_sums asset (add_to_sum e sums) es),
)

-- `validateBalance` accepts exactly the entries whose debits and credits agree for each asset.
pub validate_balance_iff :
    (es : List Entry)
    → (validate_balance es ≡ none) ↔ ((asset : String) → debits asset es ≡ credits asset es)
unfolding validate_balance
validate_balance_iff es = (
  λ h asset. omega (
    int_laws,
    parts_of (lookup_sum-asset_sums asset [] es),
    parts_of (first_nonzero_zero (asset_sums [] es) asset h),
  ),
  λ h.
      zero_first_nonzero (asset_sums [] es) (asset_sums-IsMap [] es tt) (λ asset.
        omega (int_laws, parts_of (lookup_sum-asset_sums asset [] es), parts_of (h asset))),
)

-- What an entry must be: a debit or a credit of a positive amount of a named asset.
pub record IsWellFormed (e : Entry) : Type 0 where
  pub directed : is_direction e.direction ≡ true
  pub positive : pos 1 ≤ℤ e.amount
  pub named : e.asset_code ≢ ""

pub entry_flaw_iff : (e : Entry) → (entry_flaw e ≡ none) ↔ IsWellFormed e
unfolding entry_flaw
entry_flaw_iff e =
    (λ h. ground (arith, eq_iff e.asset_code ""), λ h. ground (arith, eq_iff e.asset_code ""))

pub validate_entries_iff :
    (i : ℕ) (es : List Entry) → (validate_entries i es ≡ none) ↔ All IsWellFormed es
unfolding validate_entries
validate_entries_iff i [] = (λ _. tt, λ _. refl)
validate_entries_iff i (e ∷ es) = elim (Option-cases (entry_flaw e)) [
  | inl sound ↦
      rw (sound, validate_entries)
        (
          λ h. ((entry_flaw_iff e).0 sound, (validate_entries_iff (suc i) es).0 h),
          λ h. (validate_entries_iff (suc i) es).1 h.1,
        )
  | inr (flaw, found) ↦ rw (found, validate_entries) (λ h. cc, λ h. cc ((entry_flaw_iff e).1 h.0))
]

-- `Post` goes on to the database exactly for a non-empty list of well-formed entries whose debits
-- and credits agree for each asset.
pub validate_iff :
    (es : List Entry)
    → (validate es ≡ none)
      ↔ ((es ≢ []) × All IsWellFormed es × ((asset : String) → debits asset es ≡ credits asset es))
unfolding validate
validate_iff [] = (λ h. cc, λ h. absurd (h.0 refl))
validate_iff (e ∷ es) = elim (Option-cases (validate_entries 0 (e ∷ es))) [
  | inl sound ↦
      rw (sound, validate)
        (
          λ h. (
            λ nil. cc,
            (validate_entries_iff 0 (e ∷ es)).0 sound,
            (validate_balance_iff (e ∷ es)).0 h,
          ),
          λ h. (validate_balance_iff (e ∷ es)).1 h.2,
        )
  | inr (flaw, found) ↦
      rw (found, validate) (λ h. cc, λ h. cc ((validate_entries_iff 0 (e ∷ es)).1 h.1))
]

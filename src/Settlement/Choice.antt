-- ===== src/Settlement/Choice.antt =====
-- The choice of a payout provider (internal/settlement/dispatch.go, `selectProvider`).
use payment_engine_v.Base.{
  ap, String, true, false, Option, none, some, List, [], ◌∷◌, ◌++◌, ◌≡◌, ◌⊎◌, refl, inl, inr,
  Bool-cases, All, head_row,
}
use payment_engine_v.Settlement.Services.{Provider}
use payment_engine_v.Settlement.Dispatch.{
  or_else, is_enabled, enabled_names, contains, first_untried, choose_provider,
}

module _ (ps : List Provider) (tried : List String) where
  abbrev pub IsOff : String → Type 0
  IsOff n = is_enabled n ps ≡ false

  abbrev pub IsSpent : String → Type 0
  IsSpent n = is_enabled n ps ≡ true → contains n tried ≡ true

  -- `n` is enabled and stands in the bindings, after bindings with the property.
  abbrev pub IsAfter : (String → Type 0) → String → List String → Type 0
  IsAfter P n bindings =
      (before : List String) × (after : List String) × (bindings ≡ before ++ n ∷ after)
      × (is_enabled n ps ≡ true)
      × All P before

  abbrev pub IsChoice : List String → Option String → Type 0
  IsChoice bindings none = All IsOff bindings
  IsChoice bindings (some n) =
      ((contains n tried ≡ false) × IsAfter IsSpent n bindings)
      ⊎ (All IsSpent bindings × IsAfter IsOff n bindings)

  IsAfter-later :
      (P : String → Type 0) (n m : String) (bindings : List String)
      → P m
      → IsAfter P n bindings
      → IsAfter P n (m ∷ bindings)
  IsAfter-later P n m bindings p (before, after, e, on, all) =
      (m ∷ before, after, ap (λ xs. m ∷ xs) e, on, (p, all))

  abbrev IsUntried : List String → Option String → Type 0
  IsUntried bindings none = All IsSpent bindings
  IsUntried bindings (some n) = (contains n tried ≡ false) × IsAfter IsSpent n bindings

  IsUntried-later :
      (m : String) (bindings : List String) (o : Option String)
      → IsSpent m
      → IsUntried bindings o
      → IsUntried (m ∷ bindings) o
  IsUntried-later m bindings none p h = (p, h)
  IsUntried-later m bindings (some n) p (u, h) = (u, IsAfter-later IsSpent n m bindings p h)

  first_untried-IsUntried :
      (bindings : List String)
      → IsUntried bindings (first_untried tried (enabled_names ps bindings))
  first_untried-IsUntried [] = tt
  first_untried-IsUntried (m ∷ ms) = elim (Bool-cases (is_enabled m ps)) [
    | inr off ↦ rw off (IsUntried-later m ms _ (λ on. cc) (first_untried-IsUntried ms))
    | inl on ↦ elim (Bool-cases (contains m tried)) [
      | inl old ↦ rw (on, old) (IsUntried-later m ms _ (λ _. old) (first_untried-IsUntried ms))
      | inr new ↦ rw (on, new) (new, ([], ms, refl, on, tt))
    ]
  ]

  abbrev IsHead : List String → Option String → Type 0
  IsHead bindings none = All IsOff bindings
  IsHead bindings (some n) = IsAfter IsOff n bindings

  IsHead-later :
      (m : String) (bindings : List String) (o : Option String)
      → IsOff m
      → IsHead bindings o
      → IsHead (m ∷ bindings) o
  IsHead-later m bindings none p h = (p, h)
  IsHead-later m bindings (some n) p h = IsAfter-later IsOff n m bindings p h

  head_row-IsHead :
      (bindings : List String) → IsHead bindings (head_row (enabled_names ps bindings))
  head_row-IsHead [] = tt
  head_row-IsHead (m ∷ ms) = elim (Bool-cases (is_enabled m ps)) [
    | inr off ↦ rw off (IsHead-later m ms _ off (head_row-IsHead ms))
    | inl on ↦ rw on ([], ms, refl, on, tt)
  ]

  or_else-IsChoice :
      (bindings : List String) (o h : Option String)
      → IsUntried bindings o
      → IsHead bindings h
      → IsChoice bindings (or_else o h)
  or_else-IsChoice bindings none none u h = h
  or_else-IsChoice bindings none (some n) u h = inr (u, h)
  or_else-IsChoice bindings (some n) h u q = inl u

  -- The provider that is chosen among a corridor's bindings is bound and enabled. It is the first
  -- enabled one that was not tried; where all enabled ones were tried, it is the first enabled one;
  -- and none is chosen only where no bound provider is enabled.
  pub choose_provider-IsChoice :
      (bindings : List String) → IsChoice bindings (choose_provider ps bindings tried)
  unfolding choose_provider
  choose_provider-IsChoice bindings =
      or_else-IsChoice bindings _ _ (first_untried-IsUntried bindings) (head_row-IsHead bindings)

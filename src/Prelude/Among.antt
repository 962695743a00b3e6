-- ===== src/Prelude/Among.antt =====
-- Membership of a list by recursion, and lists that are joined or opened in the middle.
use mathlib.Core.Path.{◌≡◌}
use mathlib.Core.Logic.{◌⊎◌, inl, inr}
use mathlib.Core.List.{List, [], ◌∷◌, ◌++◌, append_assoc}

abbrev pub Among : {A : Type 0} → A → List A → Type 0
Among a [] = ⊥
Among a (x ∷ xs) = (a ≡ x) ⊎ Among a xs

module _ {A : Type 0} where
  pub Among-append : (a : A) (xs ys : List A) → Among a (xs ++ ys) → Among a xs ⊎ Among a ys
  Among-append a [] ys h = inr h
  Among-append a (x ∷ xs) ys (inl e) = inl (inl e)
  Among-append a (x ∷ xs) ys (inr h) = elim (Among-append a xs ys h) [
    | inl l ↦ inl (inr l)
    | inr r ↦ inr r
  ]

  pub join_left : (a : A) (xs ys : List A) → Among a xs → Among a (xs ++ ys)
  join_left a [] ys h = absurd h
  join_left a (x ∷ xs) ys (inl e) = inl e
  join_left a (x ∷ xs) ys (inr h) = inr (join_left a xs ys h)

  pub join_right : (a : A) (xs ys : List A) → Among a ys → Among a (xs ++ ys)
  join_right a [] ys h = h
  join_right a (x ∷ xs) ys h = inr (join_right a xs ys h)

  -- The element in the middle, or one of the others.
  pub Among-middle :
      (a : A) (xs : List A) (x : A) (ys : List A)
      → Among a (xs ++ (x ∷ ys))
      → (a ≡ x) ⊎ Among a (xs ++ ys)
  Among-middle a xs x ys h = elim (Among-append a xs (x ∷ ys) h) [
    | inl l ↦ inr (join_left a xs ys l)
    | inr (inl e) ↦ inl e
    | inr (inr r) ↦ inr (join_right a xs ys r)
  ]

  pub into_middle :
      (a : A) (xs : List A) (x : A) (ys : List A)
      → (a ≡ x) ⊎ Among a (xs ++ ys)
      → Among a (xs ++ (x ∷ ys))
  into_middle a xs x ys (inl e) = join_right a xs (x ∷ ys) (inl e)
  into_middle a xs x ys (inr h) = elim (Among-append a xs ys h) [
    | inl l ↦ join_left a xs (x ∷ ys) l
    | inr r ↦ join_right a xs (x ∷ ys) (inr r)
  ]

  module _ (before : List A) (x : A) (after rest : List A) where
    open_middle : (before ++ (x ∷ after)) ++ rest ≡ before ++ (x ∷ (after ++ rest))
    open_middle = append_assoc before (x ∷ after) rest

    shut_middle : (before ++ after) ++ rest ≡ before ++ (after ++ rest)
    shut_middle = append_assoc before after rest

    -- The same with more behind.
    pub Among-taken :
        (a : A)
        → Among a ((before ++ (x ∷ after)) ++ rest)
        → (a ≡ x) ⊎ Among a ((before ++ after) ++ rest)
    Among-taken a h = rw shut_middle (Among-middle a before x (after ++ rest) (rw open_middle at h))

    pub into_taken :
        (a : A)
        → (a ≡ x) ⊎ Among a ((before ++ after) ++ rest)
        → Among a ((before ++ (x ∷ after)) ++ rest)
    into_taken a h = rw open_middle (into_middle a before x (after ++ rest) (rw shut_middle at h))

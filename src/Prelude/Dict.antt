-- ===== src/Prelude/Dict.antt =====
-- A Python dictionary keyed by identifiers, in insertion order.
use Prim.Native.Nat.{ℕ, ◌+◌, ◌≤◌}
use mathlib.Core.Path.{◌≡◌, refl}
use mathlib.Core.Logic.{◌≢◌}
use mathlib.Core.Bool.{Bool}
use mathlib.Core.Option.{Option, none, some}
use mathlib.Core.List.{List, [], ◌∷◌, map}
use native.Mathlib.Omega.{arith}
use hexaqueue.Prelude.Lists.{sum_by}
use hexaqueue.Prelude.Tests.{◌==◌, if◌then◌else◌, is_some}

abbrev pub Dict : Type 0 → Type 0
Dict V = List (ℕ × V)

module _ {V : Type 0} where
  -- `d.get(k)`
  abbrev pub get : ℕ → Dict V → Option V
  get k [] = none
  get k ((j, v) ∷ d) = if k == j then some v else get k d

  -- `k in d`
  abbrev pub contains : ℕ → Dict V → Bool
  contains k d = is_some (get k d)

  -- `d[k] = v`: a known key keeps its place.
  abbrev pub put : ℕ → V → Dict V → Dict V
  put k v [] = (k, v) ∷ []
  put k v ((j, w) ∷ d) = if k == j then (j, v) ∷ d else (j, w) ∷ put k v d

  -- `del d[k]` and `d.pop(k, None)`
  abbrev pub del : ℕ → Dict V → Dict V
  del k [] = []
  del k ((j, w) ∷ d) = if k == j then d else (j, w) ∷ del k d

  -- `d.values()`
  abbrev pub values : Dict V → List V
  values = map (λ e. e.1)

  abbrev pub keys : Dict V → List ℕ
  keys = map (λ e. e.0)

  -- No key stands twice, as in every dictionary.
  abbrev pub Unique : Dict V → Type 0
  Unique [] = Unit
  Unique ((k, v) ∷ d) = (get k d ≡ none) × Unique d

  pub get-put_self : (k : ℕ) (v : V) (d : Dict V) → get k (put k v d) ≡ some v
  get-put_self k v [] = ground arith
  get-put_self k v ((j, w) ∷ d) = ground (arith, get-put_self k v d)

  pub get-put_ne : (k j : ℕ) (v : V) (d : Dict V) → j ≢ k → get j (put k v d) ≡ get j d
  get-put_ne k j v [] h = ground arith
  get-put_ne k j v ((i, w) ∷ d) h = ground (arith, get-put_ne k j v d h)

  pub get-put :
      (k j : ℕ) (v : V) (d : Dict V) → get j (put k v d) ≡ (if j == k then some v else get j d)
  get-put k j v [] = refl
  get-put k j v ((i, w) ∷ d) = ground (arith, get-put k j v d)

  pub get-del_ne : (k j : ℕ) (d : Dict V) → j ≢ k → get j (del k d) ≡ get j d
  get-del_ne k j [] h = refl
  get-del_ne k j ((i, w) ∷ d) h = ground (arith, get-del_ne k j d h)

  pub get-del_self : (k : ℕ) (d : Dict V) → Unique d → get k (del k d) ≡ none
  get-del_self k [] u = refl
  get-del_self k ((i, w) ∷ d) u = ground (arith, get-del_self k d u.1)

  pub Unique-put : (k : ℕ) (v : V) (d : Dict V) → Unique d → Unique (put k v d)
  Unique-put k v [] u = (refl, tt)
  Unique-put k v ((i, w) ∷ d) u = ground (arith, Unique-put k v d u.1, get-put_ne k i v d)

  pub Unique-del : (k : ℕ) (d : Dict V) → Unique d → Unique (del k d)
  Unique-del k [] u = tt
  Unique-del k ((i, w) ∷ d) u = ground (arith, Unique-del k d u.1, get-del_ne k i d)

  pub del_absent : (k : ℕ) (d : Dict V) → get k d ≡ none → del k d ≡ d
  del_absent k [] e = refl
  del_absent k ((i, w) ∷ d) e = ground (arith, del_absent k d)

  -- What a total over the values gains and loses.
  pub sum_by-put-le :
      (f : V → ℕ) (k : ℕ) (v : V) (d : Dict V)
      → sum_by f (values (put k v d)) ≤ sum_by f (values d) + f v
  sum_by-put-le f k v [] = omega arith
  sum_by-put-le f k v ((i, w) ∷ d) = ground (arith, sum_by-put-le f k v d)

  pub sum_by-put_new :
      (f : V → ℕ) (k : ℕ) (v : V) (d : Dict V)
      → get k d ≡ none
      → sum_by f (values (put k v d)) ≡ sum_by f (values d) + f v
  sum_by-put_new f k v [] e = omega arith
  sum_by-put_new f k v ((i, w) ∷ d) e = ground (arith, sum_by-put_new f k v d)

  pub sum_by-del :
      (f : V → ℕ) (k : ℕ) (v : V) (d : Dict V)
      → get k d ≡ some v
      → sum_by f (values (del k d)) + f v ≡ sum_by f (values d)
  sum_by-del f k v [] e = cc
  sum_by-del f k v ((i, w) ∷ d) e = ground (arith, sum_by-del f k v d)

  pub sum_by-del-le :
      (f : V → ℕ) (k : ℕ) (d : Dict V) → sum_by f (values (del k d)) ≤ sum_by f (values d)
  sum_by-del-le f k [] = omega arith
  sum_by-del-le f k ((i, w) ∷ d) = ground (arith, sum_by-del-le f k d)

  pub del-put_new : (k : ℕ) (v : V) (d : Dict V) → get k d ≡ none → del k (put k v d) ≡ d
  del-put_new k v [] e = ground arith
  del-put_new k v ((i, w) ∷ d) e = ground (arith, del-put_new k v d)

  -- A total over the values when one of them is replaced.
  pub sum_by-put_known :
      (f : V → ℕ) (k : ℕ) (new old : V) (d : Dict V)
      → get k d ≡ some old
      → sum_by f (values (put k new d)) + f old ≡ sum_by f (values d) + f new
  sum_by-put_known f k new old [] e = cc
  sum_by-put_known f k new old ((i, w) ∷ d) e = ground (arith, sum_by-put_known f k new old d)

-- ===== src/Gateway/RateLimiter/Sliding.antt =====
-- The entries of one client: RateLimiter.Allow of deploy/global-router/security.go on one list.
use featuresignals_unified.Base.{
  ℕ, ◌+◌, ◌*◌, ◌≤◌, ◌<◌, ◌≡◌, refl, false, ◌&&◌, List, [], ◌∷◌, ◌++◌, ltb, leb, length, arith,
  length-append, ap, Bool-cases, inl, inr, if◌then◌else◌,
}
use featuresignals_unified.Base.Preds.{All, All-append}
use featuresignals_unified.Gateway.RateLimiter.{drop_old}

-- How many of the times lie in the window from `from` on, its ends included.
unfoldable pub count_in : ℕ → ℕ → List ℕ → ℕ
count_in window from [] = 0
count_in window from (t ∷ ts) =
    (if leb from t && leb t (from + window) then 1 else 0) + count_in window from ts

count_in-append :
    (window from : ℕ) (xs ys : List ℕ)
    → count_in window from (xs ++ ys) ≡ count_in window from xs + count_in window from ys
unfolding count_in
count_in-append window from [] ys = omega arith
count_in-append window from (x ∷ xs) ys = omega (arith, count_in-append window from xs ys)

count_in-length : (window from : ℕ) (xs : List ℕ) → count_in window from xs ≤ length xs
unfolding count_in
count_in-length window from [] = omega arith
count_in-length window from (x ∷ xs) = ground (arith, count_in-length window from xs)

-- The window of each of the times ended before `now`.
abbrev pub AllOld : ℕ → ℕ → List ℕ → Type 0
AllOld window now ts = All (λ t. t + window < now) ts

count_in-AllOld :
    (window from now : ℕ) (ts : List ℕ)
    → AllOld window now ts
    → now ≤ from + window
    → count_in window from ts ≡ 0
unfolding count_in
count_in-AllOld window from now [] h k = refl
count_in-AllOld window from now (t ∷ ts) h k =
    ground (arith, count_in-AllOld window from now ts h.1 k, h.0)

pub AllOld-append :
    (window now : ℕ) (xs ys : List ℕ)
    → AllOld window now xs
    → AllOld window now ys
    → AllOld window now (xs ++ ys)
AllOld-append window now [] ys h k = k
AllOld-append window now (x ∷ xs) ys h k = (h.0, AllOld-append window now xs ys h.1 k)

pub AllOld-later :
    (window last now : ℕ) (ts : List ℕ) → last ≤ now → AllOld window last ts → AllOld window now ts
AllOld-later window last now [] h k = tt
AllOld-later window last now (t ∷ ts) h k =
    (omega (arith, h, k.0), AllOld-later window last now ts h k.1)

-- What the loop removes is old, and it is a front part.
pub drop_old-AllOld :
    (window now : ℕ) (ts : List ℕ)
    → (gone : List ℕ) × (ts ≡ gone ++ drop_old window now ts) × AllOld window now gone
unfolding drop_old
drop_old-AllOld window now [] = ([], refl, tt)
drop_old-AllOld window now (t ∷ ts) = elim (Bool-cases (ltb (t + window) now)) [
  | inl old ↦
      let (gone, split, all) = drop_old-AllOld window now ts in
      rw old (t ∷ gone, ap (λ l. t ∷ l) split, (ground (arith, old), all))
  | inr fresh ↦ rw fresh ([], refl, tt)
]

-- The times that were let through, `old` ones and those in the list, never crowd a window.
abbrev pub Fair : ℕ → ℕ → List ℕ → Type 0
Fair limit window ts = (from : ℕ) → count_in window from ts ≤ limit

count_in-beyond :
    (window from now : ℕ) → leb now (from + window) ≡ false → count_in window from (now ∷ []) ≡ 0
unfolding count_in
count_in-beyond window from now h = ground (arith, h)

-- Letting one more request through where the list has room keeps the windows fair.
pub Fair-push :
    (limit window now : ℕ) (old l : List ℕ)
    → AllOld window now old
    → length l < limit
    → Fair limit window (old ++ l)
    → Fair limit window (old ++ (l ++ now ∷ []))
Fair-push limit window now old l h room fair from = elim (Bool-cases (leb now (from + window))) [
  | inl inside ↦ omega (
    arith,
    count_in-append window from old (l ++ now ∷ []),
    count_in-length window from (l ++ now ∷ []),
    length-append l (now ∷ []),
    count_in-AllOld window from now old h (ground (arith, inside)),
    room,
  )
  | inr beyond ↦ omega (
    arith,
    fair from,
    count_in-append window from old l,
    count_in-append window from old (l ++ now ∷ []),
    count_in-append window from l (now ∷ []),
    count_in-beyond window from now beyond,
  )
]

-- Each time is within a window's length of the first.
abbrev pub Span : ℕ → List ℕ → Type 0
Span window [] = Unit
Span window (t ∷ ts) = All (λ a. a ≤ t + window) ts

abbrev pub AllUntil : ℕ → List ℕ → Type 0
AllUntil now ts = All (λ t. t ≤ now) ts

pub AllUntil-later : {last now : ℕ} (ts : List ℕ) → last ≤ now → AllUntil last ts → AllUntil now ts
AllUntil-later [] h k = tt
AllUntil-later (t ∷ ts) h k = (omega (arith, h, k.0), AllUntil-later ts h k.1)

pub AllUntil-push : (now : ℕ) (ts : List ℕ) → AllUntil now ts → AllUntil now (ts ++ now ∷ [])
AllUntil-push now [] h = (omega arith, tt)
AllUntil-push now (t ∷ ts) h = (h.0, AllUntil-push now ts h.1)

pub AllUntil-drop_old :
    (window now : ℕ) (ts : List ℕ) → AllUntil now ts → AllUntil now (drop_old window now ts)
unfolding drop_old
AllUntil-drop_old window now [] h = tt
AllUntil-drop_old window now (t ∷ ts) h = ground (arith, h, AllUntil-drop_old window now ts h.1)

AllUntil-Span :
    (window now t : ℕ) (ts : List ℕ) → now ≤ t + window → AllUntil now ts → Span window (t ∷ ts)
AllUntil-Span window now t [] h k = tt
AllUntil-Span window now t (a ∷ ts) h k =
    (omega (arith, h, k.0), AllUntil-Span window now t ts h k.1)

-- The entries left lie within a window's length, and so they do with one more.
pub drop_old-Span :
    (window now : ℕ) (ts ys : List ℕ)
    → AllUntil now ts
    → AllUntil now ys
    → Span window ys
    → Span window (drop_old window now ts ++ ys)
unfolding drop_old
drop_old-Span window now [] ys h k s = s
drop_old-Span window now (t ∷ ts) ys h k s = elim (Bool-cases (ltb (t + window) now)) [
  | inl old ↦ rw old (drop_old-Span window now ts ys h.1 k s)
  | inr fresh ↦ rw fresh (
      AllUntil-Span window now t (ts ++ ys) (ground (arith, fresh))
        (All-append (λ a. a ≤ now) ts ys h.1 k))
]

-- A list whose front is older than two windows is old altogether.
pub Span-AllOld :
    (window now t : ℕ) (ts : List ℕ)
    → t + 2 * window < now
    → Span window (t ∷ ts)
    → AllOld window now ts
Span-AllOld window now t [] h k = tt
Span-AllOld window now t (a ∷ ts) h k = (omega (arith, h, k.0), Span-AllOld window now t ts h k.1)

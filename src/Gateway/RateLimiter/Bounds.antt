-- ===== src/Gateway/RateLimiter/Bounds.antt =====
-- How much a client gets through in a window: RateLimiter of deploy/global-router/security.go.
use mathlib.Core.Path.{subst}
use mathlib.Core.List.{append_assoc, append-nil}
use featuresignals_unified.Base.{
  ℕ, ◌≤◌, ◌<◌, ◌≡◌, ◌⊎◌, refl, sym, ap, ◌∙◌, true, false, Option, some, List, [], ◌∷◌, ◌++◌, length,
  arith, Bool-cases, inl, inr,
}
use featuresignals_unified.Base.Int.{ℤ, pos, pos_part, leb_ℤ}
use featuresignals_unified.Base.Text.{Text, text_eq, text_eq_iff, text_eq_refl}
use featuresignals_unified.Base.Assoc.{lookup, insert, lookup-insert}
use featuresignals_unified.Gateway.RateLimiter.{
  RateLimiter, new_rate_limiter, Verdict, or_none_yet, drop_old, refuse, allow_client, allow,
  clean_up, sweep_entries,
}
use featuresignals_unified.Gateway.RateLimiter.Sliding.{
  count_in, AllOld, AllOld-append, AllOld-later, drop_old-AllOld, Fair, Fair-push, Span, AllUntil,
  AllUntil-later, AllUntil-push, AllUntil-drop_old, drop_old-Span, Span-AllOld,
}
use featuresignals_unified.Gateway.RateLimiter.Windows.{
  Event, request, clean, passed_times, passed, Fits, length-insert, evict_none, IsDistinct,
  insert-IsDistinct, sweep_entries-IsDistinct, Stale, sweep_entries-Swept,
}

-- What Allow does to the entry of its client: a refusal, or the request is recorded.
abbrev pub Recorded : ℕ → ℕ → List ℕ → Verdict → Option (List ℕ) → Type 0
Recorded limit now l verdict entry =
    ((passed_times now verdict ≡ []) × (entry ≡ some l))
    ⊎ ((length l < limit) × (passed_times now verdict ≡ now ∷ []) × (entry ≡ some (l ++ now ∷ [])))

record Answered (k : Text) (now : ℕ) (rl : RateLimiter) (answer : Verdict × RateLimiter)
    : Type 0 where
  pub limit : answer.1.limit ≡ rl.limit
  pub window : answer.1.window ≡ rl.window
  pub distinct : IsDistinct answer.1.requests
  pub others :
      (ip : Text) → text_eq k ip ≡ false → lookup ip answer.1.requests ≡ lookup ip rl.requests
  pub own :
      Recorded
        (pos_part rl.limit)
        now
        (drop_old rl.window now (or_none_yet (lookup k rl.requests)))
        answer.0
        (lookup k answer.1.requests)

refuse_none : (window now : ℕ) (l : List ℕ) → passed_times now (refuse window now l) ≡ []
refuse_none window now [] = refl
refuse_none window now (t ∷ ts) = refl

lookup-insert_self :
    (k : Text) (v : List ℕ) (m : List (Text × List ℕ)) → lookup k (insert k v m) ≡ some v
lookup-insert_self k v m = ground (arith, lookup-insert k k v m, text_eq_refl k)

lookup-insert_other :
    (k ip : Text) (v : List ℕ) (m : List (Text × List ℕ))
    → text_eq k ip ≡ false
    → lookup ip (insert k v m) ≡ lookup ip m
lookup-insert_other k ip v m h = ground (arith, lookup-insert k ip v m, h)

allow-Answered :
    (k : Text) (now : ℕ) (rl : RateLimiter)
    → IsDistinct rl.requests
    → length (insert k [] rl.requests) ≤ rl.max_ips
    → Answered k now rl (allow k now rl)
unfolding allow allow_client
allow-Answered k now rl d room =
    let l = drop_old rl.window now (or_none_yet (lookup k rl.requests)) in
    elim (Bool-cases (leb_ℤ rl.limit (pos (length l)))) [
      | inl full ↦ rw full (record {
        limit = refl;
        window = refl;
        distinct = insert-IsDistinct k l rl.requests d;
        others = λ ip h. lookup-insert_other k ip l rl.requests h;
        own = inl (refuse_none rl.window now l, lookup-insert_self k l rl.requests);
      })
      | inr free ↦
          let m = insert k (l ++ now ∷ []) rl.requests in
          rw
            (
              free,
              evict_none rl.max_ips m (rw (length-insert k (l ++ now ∷ []) [] rl.requests) room),
            )
            (record {
              limit = refl;
              window = refl;
              distinct = insert-IsDistinct k (l ++ now ∷ []) rl.requests d;
              others = λ ip h. lookup-insert_other k ip (l ++ now ∷ []) rl.requests h;
              own =
                  inr
                    (ground (arith, free), refl, lookup-insert_self k (l ++ now ∷ []) rl.requests);
            })
    ]

-- The entry of a client, `old` being what it got through and is forgotten.
record Holds (limit window last : ℕ) (old l : List ℕ) : Type 0 where
  pub is_old : AllOld window last old
  pub until : AllUntil last l
  pub span : Span window l
  pub fair : Fair limit window (old ++ l)

module _ (limit window : ℕ) where
  later-Holds :
      {last now : ℕ} (old l : List ℕ)
      → last ≤ now
      → Holds limit window last old l
      → Holds limit window now old l
  later-Holds {last = last} {now = now} old l le h = record {
    is_old = AllOld-later window last now old le h.is_old;
    until = AllUntil-later l le h.until;
    span = h.span;
    fair = h.fair;
  }

  -- The old entries are forgotten.
  drop_old-Holds :
      (now : ℕ) (old l : List ℕ)
      → Holds limit window now old l
      → (gone : List ℕ) × (l ≡ gone ++ drop_old window now l)
        × Holds limit window now (old ++ gone) (drop_old window now l)
  drop_old-Holds now old l h =
      let (gone, split, all) = drop_old-AllOld window now l in
      (
        gone,
        split,
        record {
          is_old = AllOld-append window now old gone h.is_old all;
          until = AllUntil-drop_old window now l h.until;
          span =
              subst (Span window) (append-nil (drop_old window now l))
                (drop_old-Span window now l [] h.until tt tt);
          fair =
              subst (Fair limit window)
                (ap (λ x. old ++ x) split ∙ sym (append_assoc old gone (drop_old window now l)))
                h.fair;
        },
      )

  push-Holds :
      (now : ℕ) (old l : List ℕ)
      → Holds limit window now old (drop_old window now l)
      → AllUntil now l
      → length (drop_old window now l) < limit
      → Holds limit window now old (drop_old window now l ++ now ∷ [])
  push-Holds now old l h until room = record {
    is_old = h.is_old;
    until = AllUntil-push now (drop_old window now l) h.until;
    span = drop_old-Span window now l (now ∷ []) until (omega arith, tt) tt;
    fair = Fair-push limit window now old (drop_old window now l) h.is_old room h.fair;
  }

  -- What is forgotten can be counted with the rest.
  regroup :
      (l gone kept old rest : List ℕ)
      → l ≡ gone ++ kept
      → old ++ (l ++ rest) ≡ (old ++ gone) ++ (kept ++ rest)
  regroup l gone kept old rest e =
      ap (λ x. old ++ (x ++ rest)) e
      ∙ ap (λ x. old ++ x) (append_assoc gone kept rest)
      ∙ sym (append_assoc old gone (kept ++ rest))

  swept-Holds :
      (now : ℕ) (old l : List ℕ)
      → Holds limit window now old l
      → Stale window now l
      → Holds limit window now (old ++ l) []
  swept-Holds now old l h stale = record {
    is_old = AllOld-append window now old l h.is_old (stale_old l h.span stale);
    until = tt;
    span = tt;
    fair = subst (Fair limit window) (sym (append-nil (old ++ l))) h.fair;
  }
    where
      stale_old : (ts : List ℕ) → Span window ts → Stale window now ts → AllOld window now ts
      stale_old [] s k = tt
      stale_old (t ∷ ts) s k = (omega (arith, k), Span-AllOld window now t ts k s)

  module _ (ip : Text) where
    -- The limiter, with the entry of the client.
    record IsLimiter (rl : RateLimiter) (l : List ℕ) : Type 0 where
      pub has_limit : pos_part rl.limit ≡ limit
      pub has_window : rl.window ≡ window
      pub distinct : IsDistinct rl.requests
      pub entry : or_none_yet (lookup ip rl.requests) ≡ l

    own-Recorded :
        (k : Text) (now : ℕ) (rl : RateLimiter) (l : List ℕ)
        → text_eq k ip ≡ true
        → IsLimiter rl l
        → Answered k now rl (allow k now rl)
        → Recorded limit now
            (drop_old window now l)
            (allow k now rl).0
            (lookup ip (allow k now rl).1.requests)
    own-Recorded k now rl l same r a =
        let e : k ≡ ip = (text_eq_iff k ip).0 same in
        subst
          (λ x.
            Recorded limit now (drop_old window now x) (allow k now rl).0
              (lookup ip (allow k now rl).1.requests))
          (ap (λ x. or_none_yet (lookup x rl.requests)) e ∙ r.entry)
          (subst
            (λ x.
              Recorded limit now (drop_old window now (or_none_yet (lookup k rl.requests)))
                (allow k now rl).0 (lookup x (allow k now rl).1.requests))
            e
            (subst
              (λ x.
                Recorded limit now (drop_old x now (or_none_yet (lookup k rl.requests)))
                  (allow k now rl).0 (lookup k (allow k now rl).1.requests))
              r.has_window
              (subst
                (λ x.
                  Recorded x now (drop_old rl.window now (or_none_yet (lookup k rl.requests)))
                    (allow k now rl).0 (lookup k (allow k now rl).1.requests))
                r.has_limit a.own)))

    Answered-IsLimiter :
        (k : Text) (now : ℕ) (rl : RateLimiter) (l after : List ℕ)
        → IsLimiter rl l
        → Answered k now rl (allow k now rl)
        → or_none_yet (lookup ip (allow k now rl).1.requests) ≡ after
        → IsLimiter (allow k now rl).1 after
    Answered-IsLimiter k now rl l after r a e = record {
      has_limit = ap pos_part a.limit ∙ r.has_limit;
      has_window = a.window ∙ r.has_window;
      distinct = a.distinct;
      entry = e;
    }

    swept-IsLimiter :
        (now : ℕ) (rl : RateLimiter) (l after : List ℕ)
        → IsLimiter rl l
        → or_none_yet (lookup ip (sweep_entries rl.window now rl.requests)) ≡ after
        → IsLimiter (clean_up now rl) after
    unfolding clean_up
    swept-IsLimiter now rl l after r e = record {
      has_limit = r.has_limit;
      has_window = r.has_window;
      distinct = sweep_entries-IsDistinct rl.window now rl.requests r.distinct;
      entry = e;
    }

    passed-Fair :
        (es : List Event) (last : ℕ) (rl : RateLimiter) (old l : List ℕ)
        → IsLimiter rl l
        → Holds limit window last old l
        → Fits last es rl
        → Fair limit window (old ++ (l ++ passed ip es rl))
    unfolding passed
    passed-Fair [] last rl old l r h fits =
        subst (Fair limit window) (sym (ap (λ x. old ++ x) (append-nil l))) h.fair
    passed-Fair (request k now ∷ es) last rl old l r h fits =
        let a = allow-Answered k now rl r.distinct fits.1 in
        let h' = later-Holds old l fits.0 h in
        elim (Bool-cases (text_eq k ip)) [
          | inr other ↦ rw other (
              passed-Fair es now (allow k now rl).1 old l
                (Answered-IsLimiter k now rl l l r a (ap or_none_yet (a.others ip other) ∙ r.entry))
                h' fits.2)
          | inl same ↦
              let (gone, split, kept) = drop_old-Holds now old l h' in
              elim (own-Recorded k now rl l same r a) [
                | inl (refused, entry) ↦
                    rw (same, refused)
                      (subst (Fair limit window)
                        (sym (
                          regroup l gone (drop_old window now l) old
                            (passed ip es (allow k now rl).1) split))
                        (passed-Fair es now (allow k now rl).1 (old ++ gone) (drop_old window now l)
                          (Answered-IsLimiter k now rl l (drop_old window now l) r a
                            (ap or_none_yet entry))
                          kept fits.2))
                | inr (room, recorded, entry) ↦
                    rw (same, recorded)
                      (subst (Fair limit window)
                        (ap (λ x. (old ++ gone) ++ x)
                            (append_assoc (drop_old window now l) (now ∷ [])
                              (passed ip es (allow k now rl).1))
                          ∙ sym (
                              regroup l gone (drop_old window now l) old
                                (now ∷ passed ip es (allow k now rl).1) split))
                        (passed-Fair es now (allow k now rl).1 (old ++ gone)
                          (drop_old window now l ++ now ∷ [])
                          (Answered-IsLimiter k now rl l (drop_old window now l ++ now ∷ []) r a
                            (ap or_none_yet entry))
                          (push-Holds now (old ++ gone) l kept h'.until room) fits.2))
              ]
        ]
    passed-Fair (clean now ∷ es) last rl old l r h fits =
        let h' = later-Holds old l fits.0 h in
        elim (sweep_entries-Swept ip rl.window now rl.requests r.distinct) [
          | inl same ↦
              passed-Fair es now (clean_up now rl) old l
                (swept-IsLimiter now rl l l r (ap or_none_yet same ∙ r.entry)) h' fits.1
          | inr (gone, stale) ↦
              subst (Fair limit window) (append_assoc old l (passed ip es (clean_up now rl))) (
                passed-Fair es now (clean_up now rl) (old ++ l) []
                  (swept-IsLimiter now rl l [] r (ap or_none_yet gone))
                  (swept-Holds now old l h' (
                    subst (Stale window now) r.entry (
                      subst (λ x. Stale x now (or_none_yet (lookup ip rl.requests))) r.has_window
                        stale)))
                  fits.1)
        ]

-- At times that do not fall, while the map has room for each client that asks, a client gets at
-- most `limit` requests through in any window, its ends included, and none where the limit is
-- negative, whatever other clients ask and whenever the cleanup runs.
pub passed_limit :
    (limit : ℤ) (window max_ips : ℕ) (ip : Text) (es : List Event) (from : ℕ)
    → Fits 0 es (new_rate_limiter limit window max_ips)
    → count_in window from (passed ip es (new_rate_limiter limit window max_ips)) ≤ pos_part limit
unfolding count_in lookup
passed_limit limit window max_ips ip es from fits =
    passed-Fair (pos_part limit) window ip es 0 (new_rate_limiter limit window max_ips) [] []
      (record { has_limit = refl; has_window = refl; distinct = tt; entry = empty_entry })
      (record { is_old = tt; until = tt; span = tt; fair = λ from. omega arith }) fits from
  where
    empty_entry : or_none_yet (lookup ip []) ≡ []
    empty_entry = refl

-- ===== src/Registry/Channels/Selection.antt =====
-- The channel that `SelectChannel` picks.
use pour.Prelude.{
  ℕ, suc, ◌+◌, ◌≡◌, ◌⊎◌, refl, Bool, true, false, ◌&&◌, List, [], ◌∷◌, Option, none, some, arith,
  length, All, get_elem?, take, ltb, Bool-cases, inl, inr, if◌then◌else◌, String,
}
use pour.Registry.Channels.{IbcChannel, usable, scan, select_channel}

-- How many channels of the list are usable.
pub count_usable : String → String → List IbcChannel → ℕ
count_usable from to [] = 0
count_usable from to (c ∷ cs) = (if usable from to c then 1 else 0) + count_usable from to cs

-- No usable channel of the list is preferred.
abbrev NonePreferred : String → String → List IbcChannel → Type 0
NonePreferred from to = All (λ c. (usable from to c && c.preferred) ≡ false)

-- No channel of the list is usable.
abbrev NoneUsable : String → String → List IbcChannel → Type 0
NoneUsable from to = All (λ c. usable from to c ≡ false)

-- `c` is the first usable channel of the list.
abbrev IsFirst : String → String → List IbcChannel → IbcChannel → Type 0
IsFirst from to cs c =
    (i : ℕ) × (get_elem? cs i ≡ some c) × (usable from to c ≡ true) × NoneUsable from to (take i cs)

-- `c` is the first usable channel of the list that is preferred.
abbrev IsFirstPreferred : String → String → List IbcChannel → IbcChannel → Type 0
IsFirstPreferred from to cs c =
    (i : ℕ) × (get_elem? cs i ≡ some c)
    × (usable from to c ≡ true)
    × (c.preferred ≡ true)
    × NonePreferred from to (take i cs)

abbrev Scanned : String → String → List IbcChannel → IbcChannel ⊎ List IbcChannel → Type 0
Scanned from to cs (inl p) = IsFirstPreferred from to cs p
Scanned from to cs (inr []) = count_usable from to cs ≡ 0
Scanned from to cs (inr (c ∷ live)) =
    IsFirst from to cs c × NonePreferred from to cs × (count_usable from to cs ≡ suc (length live))

-- What `SelectChannel` may return for a list of channels.
abbrev pub Selected : String → String → List IbcChannel → Option (IbcChannel × Bool) → Type 0
Selected from to cs none = count_usable from to cs ≡ 0
Selected from to cs (some (c, ambiguous)) =
    (IsFirstPreferred from to cs c × (ambiguous ≡ false))
    ⊎ (IsFirst from to cs c
        × NonePreferred from to cs
        × (ambiguous ≡ ltb 1 (count_usable from to cs)))

none_usable :
    (from to : String) (cs : List IbcChannel)
    → count_usable from to cs ≡ 0
    → NonePreferred from to cs
unfolding count_usable
none_usable from to [] h = tt
none_usable from to (c ∷ cs) h = ground (arith, none_usable from to cs)

Scanned-cons :
    (from to : String) (c : IbcChannel) (cs : List IbcChannel) (o : IbcChannel ⊎ List IbcChannel)
    → Scanned from to cs o
    → Scanned from to (c ∷ cs) (
        if usable from to c
        then (if c.preferred then inl c else elim o [ inl p ↦ inl p | inr live ↦ inr (c ∷ live) ])
        else o)
unfolding count_usable
Scanned-cons from to c cs o h = elim (Bool-cases (usable from to c)) [
  | inr skipped ↦ rw skipped (skip o skipped h)
  | inl kept ↦ elim (Bool-cases c.preferred) [
    | inl pref ↦ simp kept (simp pref (0, refl, kept, refl, tt))
    | inr plain ↦ simp kept (simp plain (keep o kept plain h))
  ]
]
  where
    skip :
        (o : IbcChannel ⊎ List IbcChannel)
        → usable from to c ≡ false
        → Scanned from to cs o
        → Scanned from to (c ∷ cs) o
    skip (inl p) e (i, g, u, pref, before) = (suc i, g, u, pref, (simp e, before))
    skip (inr []) e n = ground arith
    skip (inr (d ∷ live)) e ((i, g, u, before), all, n) =
        ((suc i, g, u, (e, before)), (simp e, all), ground arith)

    keep :
        (o : IbcChannel ⊎ List IbcChannel)
        → usable from to c ≡ true
        → c.preferred ≡ false
        → Scanned from to cs o
        → Scanned from to (c ∷ cs) (elim o [ inl p ↦ inl p | inr live ↦ inr (c ∷ live) ])
    keep (inl p) e plain (i, g, u, pref, before) = (suc i, g, u, pref, (simp (e, plain), before))
    keep (inr []) e plain n =
        ((0, refl, e, tt), (simp (e, plain), none_usable from to cs n), ground arith)
    keep (inr (d ∷ live)) e plain (_, all, n) =
        ((0, refl, e, tt), (simp (e, plain), all), ground arith)

scan-Scanned : (from to : String) (cs : List IbcChannel) → Scanned from to cs (scan from to cs)
unfolding scan count_usable
scan-Scanned from to [] = refl
scan-Scanned from to (c ∷ cs) =
    Scanned-cons from to c cs (scan from to cs) (scan-Scanned from to cs)

-- `SelectChannel` returns nothing only if no channel is usable, that is live and between the two chains;
-- else the first of the usable channels that is preferred, and the choice is not ambiguous; or, where
-- no usable channel is preferred, the first usable one, and the choice is ambiguous exactly if several
-- are usable.
pub select_channel-Selected :
    (cs : List IbcChannel) (from to : String) → Selected from to cs (select_channel cs from to)
unfolding select_channel
select_channel-Selected cs from to = go (scan from to cs) refl (scan-Scanned from to cs)
  where
    go :
        (o : IbcChannel ⊎ List IbcChannel)
        → scan from to cs ≡ o
        → Scanned from to cs o
        → Selected from to cs (select_channel cs from to)
    go (inl p) e first = rw (e, select_channel) (inl (first, refl))
    go (inr []) e h = rw (e, select_channel) h
    go (inr (c ∷ live)) e (cand, plain, n) =
        rw (e, select_channel) (inr (cand, plain, ground arith))

-- ===== src/Assigner/Repliers/Reversed.antt =====
-- The reverse map of step 4 of `auto_assign_repliers` in app/listener_assigner.py.
use telegram_client.Prelude.{
  String, ◌≡◌, refl, inl, inr, Bool, true, false, ◌&&◌, ◌||◌, Option, none, some, List, [], ◌∷◌,
  ◌++◌, arith, Bool-cases, contains, ◌==◌, ==_iff, contains-append, string_eq, nat_eq, pair_eq, not,
  if◌then◌else◌, nodup, ==_refl, filter,
}
use telegram_client.Dict
use telegram_client.Dict.{Dict, get-put, get-eq-none, nodup-keys-put}
use telegram_client.Data.{Assignments, Pairs, int_eq, role_eq, Pair}
use telegram_client.Queue.State.{or_default}
use telegram_client.Assigner.Repliers.{
  is_text, note_group, note_pair, note_pairs, keys, reverse_assignments,
}
use telegram_client.Assigner.Repliers.Strict.{uses, IsStrict}
use telegram_client.Assigner.Listeners.{blank, is_nonempty}
use telegram_client.Assigner.Listeners.Deal.{get-blank}

-- The group is listed under the session.
unfoldable pub lists : String → String → Assignments → Bool
unfolding Dict.get contains
lists s g d = contains g (or_default [] (Dict.get s d))

-- The session is the group's primary or backup, and is not empty.
unfoldable pub serves : String → String → Pairs → Bool
unfolding Dict.get
serves s g m = elim (Dict.get g m) [ none ↦ false | some pair ↦ is_text s && uses s pair ]

module _ (names : List String) where
  -- Every session has an entry.
  record HasEntries (d : Assignments) : Type 0 where
    keyed : nodup (keys d) ≡ true
    entry : (s : String) → contains s names ≡ true → (gs : List String) × (Dict.get s d ≡ some gs)

  record Noted (g : String) (served : String → Bool) (d : Assignments) (r : Option Assignments)
      : Type 0 where
    result : Assignments
    done : r ≡ some result
    entries : HasEntries result
    listed : (t h : String) → lists t h result ≡ (lists t h d || g == h && served t)

  note_group-Noted :
      (s g : String) (d : Assignments)
      → HasEntries d
      → contains s names ≡ true
      → Noted g (λ t. s == t) d (note_group s g d)
  unfolding note_group
  note_group-Noted s g d entries inside = elim (Bool-cases (contains g gs)) [
    | inl e ↦ record {
      result = d;
      done = rw (found, e) refl;
      entries = entries;
      listed = λ t h. unfold lists in ground (arith, ==_iff s t, ==_iff g h, found, e);
    }
    | inr e ↦ record {
      result = Dict.put s (gs ++ g ∷ []) d;
      done = rw (found, e) refl;
      entries = record {
        keyed = nodup-keys-put s (gs ++ g ∷ []) d entries.keyed;
        entry = λ t i. elim (Bool-cases (s == t)) [
          | inl same ↦ (gs ++ g ∷ [], rw (get-put, same) refl)
          | inr other ↦ let (hs, old) = entries.entry t i in (hs, rw (get-put, other) old)
        ];
      };
      listed = λ t h.
          unfold lists in
          ground (
            arith,
            ==_iff s t,
            ==_iff g h,
            found,
            get-put s t (gs ++ g ∷ []) d,
            contains-append h gs (g ∷ []),
          );
    }
  ]
    where
      gs : List String
      gs = (entries.entry s inside).0

      found : Dict.get s d ≡ some gs
      found = (entries.entry s inside).1

  Noted-if :
      (b : Bool) (s g : String) (d : Assignments)
      → HasEntries d
      → (b ≡ true → contains s names ≡ true)
      → Noted g (λ t. b && s == t) d (if b then note_group s g d else some d)
  Noted-if true s g d entries inside = note_group-Noted s g d entries (inside refl)
  Noted-if false s g d entries inside = record {
    result = d;
    done = refl;
    entries = entries;
    listed = λ t h. ground arith;
  }

  note_pair-Noted :
      (g : String) (pair : Pair) (d : Assignments)
      → HasEntries d
      → ((s : String) → uses s pair ≡ true → contains s names ≡ true)
      → Noted g (λ t. is_text t && uses t pair) d (note_pair g pair d)
  unfolding note_pair
  note_pair-Noted g pair d entries known = record {
    result = both.result;
    done = rw one.done both.done;
    entries = both.entries;
    listed = λ t h. ground (
      arith,
      one.listed t h,
      both.listed t h,
      ==_iff pair.primary t,
      ==_iff pair.backup t,
      ==_iff pair.backup pair.primary,
    );
  }
    where
      one :
          Noted g
            (λ t. is_text pair.primary && pair.primary == t)
            d
            (if is_text pair.primary then note_group pair.primary g d else some d)
      one =
          Noted-if (is_text pair.primary) pair.primary g d entries
            (λ e. known pair.primary (ground (arith, ==_refl pair.primary)))

      second : Bool
      second = is_text pair.backup && not (pair.backup == pair.primary)

      both :
          Noted g
            (λ t. second && pair.backup == t)
            one.result
            (if second then note_group pair.backup g one.result else some one.result)
      both =
          Noted-if second pair.backup g one.result one.entries
            (λ e. known pair.backup (ground (arith, ==_refl pair.backup)))

  -- What `note_pairs` gives for a map with known sessions.
  record Reverses (m : Pairs) (d : Assignments) : Type 0 where
    result : Assignments
    done : note_pairs m d ≡ some result
    keyed : nodup (keys result) ≡ true
    listed : (s g : String) → lists s g result ≡ (lists s g d || serves s g m)

  abbrev Known : Pairs → Type 0
  Known m =
      (g s : String) (p : Pair) → Dict.get g m ≡ some p → uses s p ≡ true → contains s names ≡ true

  Known-tail :
      (h : String) (pair : Pair) (m : Pairs) → Dict.get h m ≡ none → Known ((h, pair) ∷ m) → Known m
  Known-tail h pair m absent known g s p got u =
      known g s p (unfold Dict.get in ground (arith, ==_iff h g)) u

  Reverses-cons :
      (h : String) (pair : Pair) (m : Pairs) (d : Assignments)
      → Dict.get h m ≡ none
      → (first : Noted h (λ t. is_text t && uses t pair) d (note_pair h pair d))
      → Reverses m first.result
      → Reverses ((h, pair) ∷ m) d
  unfolding note_pairs serves
  Reverses-cons h pair m d absent first rest = record {
    result = rest.result;
    done = rw first.done rest.done;
    keyed = rest.keyed;
    listed = λ s g. ground (arith, rest.listed s g, first.listed s g, ==_iff h g);
  }

  note_pairs-Reverses :
      (m : Pairs) (d : Assignments) → HasEntries d → nodup (keys m) ≡ true → Known m → Reverses m d
  unfolding note_pairs nodup
  note_pairs-Reverses [] d entries distinct known = record {
    result = d;
    done = refl;
    keyed = entries.keyed;
    listed = λ s g. unfold serves in ground arith;
  }
  note_pairs-Reverses ((h, pair) ∷ m) d entries distinct known =
      let absent : Dict.get h m ≡ none = get-eq-none h m (ground arith) in
      let first =
        note_pair-Noted h pair d entries
          (λ s u. known h s pair (unfold Dict.get in ground (arith, ==_refl h)) u) in
      Reverses-cons h pair m d absent first (
        note_pairs-Reverses m first.result first.entries (ground arith)
          (Known-tail h pair m absent known))

-- The entries with no group say nothing.
lists-filter :
    (s g : String) (d : Assignments)
    → nodup (keys d) ≡ true
    → lists s g (filter (λ e. is_nonempty e.1) d) ≡ lists s g d
unfolding lists filter nodup
lists-filter s g [] h = refl
lists-filter s g ((t, []) ∷ d) h = ground (arith, lists-filter s g d, ==_iff t s, get-eq-none t d)
lists-filter s g ((t, x ∷ xs) ∷ d) h = ground (arith, lists-filter s g d)

nodup-keys-blank :
    (names : List String) (d : Assignments)
    → nodup (keys d) ≡ true
    → nodup (keys (blank names d)) ≡ true
unfolding blank
nodup-keys-blank [] d h = h
nodup-keys-blank (n ∷ names) d h =
    nodup-keys-blank names (Dict.put n [] d) (nodup-keys-put n [] d h)

lists-blank : (names : List String) (s g : String) → lists s g (blank names []) ≡ false
unfolding lists
lists-blank names s g = rw (get-blank names s []) (unfold Dict.get in ground arith)

-- From a strict map the reverse map is built without a KeyError, and a session's list holds
-- exactly the groups whose pair has the session.
pub reverse-serves :
    (names used : List String) (m : Pairs)
    → IsStrict names m used
    → (a : Assignments) × (reverse_assignments names m ≡ some a)
      × ((s g : String) → lists s g a ≡ serves s g m)
unfolding reverse_assignments
reverse-serves names used m strict = (
  filter (λ e. is_nonempty e.1) r.result,
  rw r.done refl,
  λ s g. ground (arith, lists-filter s g r.result r.keyed, r.listed s g, lists-blank names s g),
)
  where
    r : Reverses names m (blank names [])
    r =
        note_pairs-Reverses names m (blank names [])
          (record {
            keyed = nodup-keys-blank names [] (unfold nodup in refl);
            entry = λ s i. ([], rw (get-blank names s [], i) refl);
          })
          strict.keyed strict.known

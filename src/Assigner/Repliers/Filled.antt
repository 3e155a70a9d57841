-- ===== src/Assigner/Repliers/Filled.antt =====
-- The strict policy in pass 2 of `auto_assign_repliers` in app/listener_assigner.py.
use telegram_client.Prelude.{
  String, ◌≡◌, refl, inl, inr, true, false, not, ◌||◌, Option, some, List, [], ◌∷◌, arith,
  Bool-cases, contains, nodup, ==_iff, ==_refl, string_eq, nat_eq, pair_eq, none, ◌&&◌,
}
use telegram_client.Assigner.Repliers.{
  is_true, same_text, Plan, take_first, choose_primary, choose_backup, or_text, primary_of,
  backup_of, conclude, complete_pair, unused, is_complete, fill_group, save_pair, fill,
}
use telegram_client.Assigner.Repliers.Strict.{
  IsStrict, MayGet, IsStrict-grow, claims, uses, IsStrict-put,
}
use telegram_client.Data.{int_eq, role_eq, Pair}
use telegram_client.Dict
use telegram_client.Dict.{Dict}
use telegram_client.Assigner.Repliers.Retained.{uses-or_text}
use telegram_client.Redis.{Redis}
use telegram_client.World.{World}

-- The invariant of pass 2: what is available is nobody's, and stands in the list once.
pub record IsReady (names : List String) (plan : Plan) : Type 0 where
  pub strict : IsStrict names plan.pair_map plan.used_sessions
  pub distinct : nodup plan.available_sessions ≡ true
  pub spare :
      (s : String)
      → contains s plan.available_sessions ≡ true
      → (contains s plan.used_sessions ≡ false) × (contains s names ≡ true)

-- Sessions were taken, and no pair was made.
record Took (names : List String) (plan plan' : Plan) : Type 0 where
  ready : IsReady names plan'
  same : plan'.pair_map ≡ plan.pair_map
  grows :
      (s : String) → contains s plan.used_sessions ≡ true → contains s plan'.used_sessions ≡ true

-- The group `g` of the first plan may get the session, which is marked in the second.
record Granted (names : List String) (g : String) (plan plan' : Plan) (s : String) : Type 0 where
  may : MayGet plan.pair_map plan.used_sessions g s
  inside : contains s names ≡ true
  marked : contains s plan'.used_sessions ≡ true

take_first-grows :
    (plan : Plan) (d : Option String) (xs : List String) (s : String)
    → contains s plan.used_sessions ≡ true
    → contains s (take_first xs d plan).1.used_sessions ≡ true
unfolding contains
take_first-grows plan d [] s h = h
take_first-grows plan d (x ∷ xs) s h = ground arith

choose_backup-grows :
    (plan : Plan) (p b : Option String) (s : String)
    → contains s plan.used_sessions ≡ true
    → contains s (choose_backup p b plan).1.used_sessions ≡ true
choose_backup-grows plan p b s h = elim (Bool-cases (not (is_true b) || same_text b p)) [
  | inl e ↦ rw e (take_first-grows plan p plan.available_sessions s h)
  | inr e ↦ rw e h
]

module _ (names : List String) (g : String) where
  Granted-grow :
      (plan plan' plan'' : Plan) (s : String)
      → ((t : String)
          → contains t plan'.used_sessions ≡ true
          → contains t plan''.used_sessions ≡ true)
      → Granted names g plan plan' s
      → Granted names g plan plan'' s
  Granted-grow plan plan' plan'' s grows h = record {
    may = h.may;
    inside = h.inside;
    marked = grows s h.marked;
  }

  -- What `pop(0)` does: it takes nothing, or a session that is free in this and in any smaller set.
  take_first-Took :
      (start plan : Plan) (d : Option String) (xs : List String)
      → plan.available_sessions ≡ xs
      → Took names start plan
      → ((s : String) → claims s d ≡ true → Granted names g start plan s)
      → Took names start (take_first xs d plan).1
        × ((s : String)
            → claims s (take_first xs d plan).0 ≡ true
            → Granted names g start (take_first xs d plan).1 s)
  unfolding contains nodup
  take_first-Took start plan d [] e t default = (t, default)
  take_first-Took start plan d (x ∷ xs) e t default = (took, granted)
    where
      plan' : Plan
      plan' = record plan { used_sessions = x ∷ plan.used_sessions; available_sessions = xs }

      grows :
          (s : String)
          → contains s plan.used_sessions ≡ true
          → contains s plan'.used_sessions ≡ true
      grows s h = ground arith

      first : (contains x plan.used_sessions ≡ false) × (contains x names ≡ true)
      first = t.ready.spare x (ground (arith, ==_refl x))

      took : Took names start plan'
      took = record {
        ready = record {
          strict =
              IsStrict-grow names plan.pair_map plan.used_sessions t.ready.strict
                plan'.used_sessions grows;
          distinct = ground (arith, t.ready.distinct);
          spare = λ s h. ground (arith, t.ready.spare s, t.ready.distinct, ==_iff x s);
        };
        same = t.same;
        grows = λ s h. grows s (t.grows s h);
      }

      granted : (s : String) → claims s (some x) ≡ true → Granted names g start plan' s
      granted s h =
          let same : x ≡ s = ground (arith, ==_iff x s) in
          record {
            may = inl (ground (arith, first, t.grows s, same));
            inside = rw same at first.1;
            marked = ground arith;
          }

  choose_primary-Took :
      (start plan : Plan) (p : Option String)
      → Took names start plan
      → ((s : String) → claims s p ≡ true → Granted names g start plan s)
      → Took names start (choose_primary p plan).1
        × ((s : String)
            → claims s (choose_primary p plan).0 ≡ true
            → Granted names g start (choose_primary p plan).1 s)
  choose_primary-Took start plan p t own = elim (Bool-cases (is_true p)) [
    | inl e ↦ rw e (t, own)
    | inr e ↦ rw e (take_first-Took start plan p plan.available_sessions refl t own)
  ]

  choose_backup-Took :
      (start plan : Plan) (p b : Option String)
      → Took names start plan
      → ((s : String) → claims s p ≡ true → Granted names g start plan s)
      → ((s : String) → claims s b ≡ true → Granted names g start plan s)
      → Took names start (choose_backup p b plan).1
        × ((s : String)
            → claims s (choose_backup p b plan).0 ≡ true
            → Granted names g start (choose_backup p b plan).1 s)
  choose_backup-Took start plan p b t primary own =
      elim (Bool-cases (not (is_true b) || same_text b p)) [
        | inl e ↦ rw e (take_first-Took start plan p plan.available_sessions refl t primary)
        | inr e ↦ rw e (t, own)
      ]

  conclude-IsReady :
      (start plan : Plan) (p b : Option String)
      → IsReady names start
      → Took names start plan
      → ((s : String) → claims s p ≡ true → Granted names g start plan s)
      → ((s : String) → claims s b ≡ true → Granted names g start plan s)
      → IsReady names (conclude g p b plan).1
  conclude-IsReady start plan p b ready t primary backup = elim (Bool-cases (is_true p)) [
    | inr e ↦ rw e t.ready
    | inl e ↦ rw e (record {
      strict = rw t.same (
          IsStrict-put names start.pair_map start.used_sessions ready.strict g _
            (λ s u. (granted e s u).may) plan.used_sessions (λ s u. (granted e s u).inside)
            (λ s u. (granted e s u).marked) t.grows);
      distinct = t.ready.distinct;
      spare = t.ready.spare;
    })
  ]
    where
      granted :
          is_true p ≡ true
          → (s : String) → uses s (record { primary = or_text p p; backup = or_text b p }) ≡ true
          → Granted names g start plan s
      granted e s u = elim (Bool-cases (claims s p)) [
        | inl c ↦ primary s c
        | inr c ↦ backup s (ground (arith, uses-or_text s p p, uses-or_text s b p))
      ]

  -- What the existing pair of the group holds is the group's own.
  own-Granted :
      (plan : Plan) (pair : Pair)
      → IsReady names plan
      → Dict.get g plan.pair_map ≡ some pair
      → (s : String) → uses s pair ≡ true
      → Granted names g plan plan s
  own-Granted plan pair ready got s u = record {
    may = inr (pair, got, u);
    inside = ready.strict.known g s pair got u;
    marked = ready.strict.claimed g s pair got u;
  }

  complete_pair-IsReady :
      (plan : Plan) (o : Option Pair)
      → Dict.get g plan.pair_map ≡ o
      → IsReady names plan
      → IsReady names (complete_pair g o plan).1
  unfolding complete_pair
  complete_pair-IsReady plan o got ready =
      let start : Took names plan plan = record { ready = ready; same = refl; grows = λ s h. h } in
      let (t₁, primary) = choose_primary-Took plan plan (primary_of o) start (first o got) in
      let (p, plan₁) = choose_primary (primary_of o) plan in
      let (t₂, backup) =
        choose_backup-Took plan plan₁ p (backup_of o) t₁ primary
          (λ s h. Granted-grow plan plan plan₁ s t₁.grows (second o got s h)) in
      let (b, plan₂) = choose_backup p (backup_of o) plan₁ in
      conclude-IsReady plan plan₂ p b ready t₂
        (λ s h.
          Granted-grow plan plan₁ plan₂ s (choose_backup-grows plan₁ p (backup_of o)) (primary s h))
        backup
    where
      first :
          (o : Option Pair)
          → Dict.get g plan.pair_map ≡ o
          → (s : String) → claims s (primary_of o) ≡ true
          → Granted names g plan plan s
      first none e s h = cc
      first (some pair) e s h = own-Granted plan pair ready e s (ground arith)

      second :
          (o : Option Pair)
          → Dict.get g plan.pair_map ≡ o
          → (s : String) → claims s (backup_of o) ≡ true
          → Granted names g plan plan s
      second none e s h = cc
      second (some pair) e s h = own-Granted plan pair ready e s (ground arith)

  pub fill_group-IsReady : (plan : Plan) → IsReady names plan → IsReady names (fill_group g plan).1
  unfolding fill_group
  fill_group-IsReady plan ready = elim (Bool-cases (is_complete (Dict.get g plan.pair_map))) [
    | inl e ↦ rw e ready
    | inr e ↦ rw e (complete_pair-IsReady plan (Dict.get g plan.pair_map) refl ready)
  ]

-- The whole of pass 2.
pub fill-IsReady :
    {R : Redis} (names groups : List String) (plan : Plan) (w : World R)
    → IsReady names plan
    → IsReady names (fill groups plan w).0
unfolding fill
fill-IsReady names [] plan w ready = ready
fill-IsReady names (g ∷ groups) plan w ready =
    fill-IsReady names groups (fill_group g plan).1 (save_pair g (fill_group g plan).0 w).1
      (fill_group-IsReady names g plan ready)

contains-unused :
    (s : String) (names used : List String)
    → contains s (unused names used) ≡ (contains s names && not (contains s used))
unfolding unused
contains-unused s [] used = refl
contains-unused s (n ∷ names) used = ground (arith, contains-unused s names used, ==_iff n s)

nodup-unused : (names used : List String) → nodup names ≡ true → nodup (unused names used) ≡ true
unfolding unused nodup
nodup-unused [] used h = refl
nodup-unused (n ∷ names) used h =
    ground (arith, nodup-unused names used, contains-unused n names used)

-- Pass 2 starts ready from what pass 1 kept.
pub unused-IsReady :
    (names : List String) (plan : Plan)
    → nodup names ≡ true
    → IsStrict names plan.pair_map plan.used_sessions
    → IsReady names (record plan { available_sessions = unused names plan.used_sessions })
unused-IsReady names plan distinct strict = record {
  strict = strict;
  distinct = nodup-unused names plan.used_sessions distinct;
  spare = λ s h. ground (arith, contains-unused s names plan.used_sessions);
}

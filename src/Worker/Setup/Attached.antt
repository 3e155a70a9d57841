-- ===== src/Worker/Setup/Attached.antt =====
-- What the setup of worker.py's listeners attaches, and what it leaves.
use telegram_client.Prelude.{
  or_else, ◌≡◌, refl, String, sym, inl, inr, Option, none, some, List, [], ◌∷◌, ◌++◌, append-nil,
  Bool-cases, ◌==◌, string_eq, nat_eq, pair_eq, ap, ◌∙◌, subst, append_assoc, Option-cases, ==_iff,
  ==_refl, true, subset, subset_intro,
}
use telegram_client.Dict
use telegram_client.Dict.{Dict}
use telegram_client.Worker.Resolve.{Entity, Client, resolve_and_join_target}
use telegram_client.Worker.Setup.{
  Resolved, resolve_groups, add_found, resolve_group, Listening, Session, set_handler,
  setup_if_here, attach, prune,
}
use mathlib.Core.Path.{fun_ext}
use telegram_client.Data.{int_eq, role_eq, Account}
use telegram_client.Redis.{Redis}
use telegram_client.World.{World}
use telegram_client.Engine.{Telethon}
use telegram_client.Queue.State.{or_default}

-- The entities that `f` finds, in order.
unfoldable pub collect {ℓ κ} : {A : Type ℓ} {B : Type κ} → (A → Option B) → List A → List B
collect f [] = []
collect f (x ∷ xs) = let rest = collect f xs in elim (f x) [ none ↦ rest | some b ↦ b ∷ rest ]

-- The chat of a target: as it was resolved before, or resolved now.
abbrev pub chat_of : Client → Dict String Entity → String → Option Entity
chat_of K known t = or_else (Dict.get t known) (resolve_and_join_target K t)

chat_of-put :
    (K : Client) (t : String) (e : Entity) (known : Dict String Entity)
    → Dict.get t known ≡ none
    → resolve_and_join_target K t ≡ some e
    → chat_of K (Dict.put t e known) ≡ chat_of K known
chat_of-put K t e known h r = fun_ext (λ u. at u)
  where
    at : (u : String) → chat_of K (Dict.put t e known) u ≡ chat_of K known u
    at u = elim (Bool-cases (t == u)) [
      | inl s ↦
          subst (λ v. chat_of K (Dict.put t e known) v ≡ chat_of K known v) ((==_iff t u).0 s)
            (rw (Dict.get-put t t e known, ==_refl t, h, r) refl)
      | inr s ↦ rw (Dict.get-put t u e known, s) refl
    ]

module _ {ℓ κ} {A : Type ℓ} {B : Type κ} (f : A → Option B) (x : A) (xs : List A) where
  collect-some : (b : B) → f x ≡ some b → collect f (x ∷ xs) ≡ b ∷ collect f xs
  unfolding collect
  collect-some b h = rw (h, collect) refl

  collect-none : f x ≡ none → collect f (x ∷ xs) ≡ collect f xs
  unfolding collect
  collect-none h = rw (h, collect) refl

chat_of-none :
    (K : Client) (t : String) (known : Dict String Entity)
    → Dict.get t known ≡ none
    → chat_of K known t ≡ resolve_and_join_target K t
chat_of-none K t known h = rw h refl

chat_of-get :
    (K : Client) (t : String) (e : Entity) (known : Dict String Entity)
    → Dict.get t known ≡ some e
    → chat_of K known t ≡ some e
chat_of-get K t e known h = rw h refl

-- What the loop over the groups leaves, by the chat of the first group.
resolve_groups_step :
    (K : Client) (t : String) (ts : List String) (s : Resolved) (o : Option Entity)
    → Dict.get t s.known ≡ o
    → resolve_groups K (t ∷ ts) s ≡ resolve_groups K ts (resolve_group K t o s)
unfolding resolve_groups
resolve_groups_step K t ts s o h = ap (λ r. resolve_groups K ts (resolve_group K t r s)) h

resolve_groups-chats :
    (K : Client) (ts : List String) (s : Resolved)
    → (resolve_groups K ts s).chats ≡ s.chats ++ collect (chat_of K s.known) ts
resolve_groups-chats K [] s = unfold resolve_groups collect in sym (append-nil s.chats)
resolve_groups-chats K (t ∷ ts) s =
    let f = chat_of K s.known in
    elim (Option-cases (Dict.get t s.known)) [
      | inl n ↦ elim (Option-cases (resolve_and_join_target K t)) [
        | inl m ↦
            ap (λ r. r.chats) (resolve_groups_step K t ts s none n)
            ∙ (ap (λ o. (resolve_groups K ts (add_found t o s)).chats) m
                ∙ (resolve_groups-chats K ts s
                    ∙ ap (λ c. s.chats ++ c)
                        (sym (collect-none f t ts (chat_of-none K t s.known n ∙ m)))))
        | inr (e, m) ↦
            ap (λ r. r.chats) (resolve_groups_step K t ts s none n)
            ∙ (ap (λ o. (resolve_groups K ts (add_found t o s)).chats) m
                ∙ (resolve_groups-chats K ts (add_found t (some e) s)
                    ∙ (append_assoc s.chats (e ∷ []) (collect (chat_of K (Dict.put t e s.known)) ts)
                        ∙ (ap (λ g. s.chats ++ e ∷ collect g ts) (chat_of-put K t e s.known n m)
                            ∙ ap (λ c. s.chats ++ c)
                                (sym (collect-some f t ts e (chat_of-none K t s.known n ∙ m)))))))
      ]
      | inr (e, n) ↦
          ap (λ r. r.chats) (resolve_groups_step K t ts s (some e) n)
          ∙ (resolve_groups-chats K ts (record s { chats = s.chats ++ e ∷ [] })
              ∙ (append_assoc s.chats (e ∷ []) (collect f ts)
                  ∙ ap (λ c. s.chats ++ c)
                      (sym (collect-some f t ts e (chat_of-get K t e s.known n)))))
    ]

-- No handler for no chats.
abbrev pub handler_of : List Entity → Option (List Entity)
handler_of [] = none
handler_of (c ∷ cs) = some (c ∷ cs)

get-handlers :
    (session : String) (cs : List Entity) (handlers : Dict String (List Entity))
    → Dict.get session (set_handler session cs (Dict.pop session handlers)) ≡ handler_of cs
get-handlers session [] handlers = Dict.get-pop session session handlers ∙ rw (==_refl session) refl
get-handlers session (c ∷ cs) handlers =
    Dict.get-put session session (c ∷ cs) (Dict.pop session handlers) ∙ rw (==_refl session) refl

subset_refl : (xs : List String) → subset xs xs ≡ true
subset_refl xs = subset_intro xs xs (λ a h. h)

module _ (S : Session) (acc : Account) (session : String) (groups : List String)
    (l : Listening) where
  -- A listener whose client works gets a handler on exactly the chats of its assigned groups, in
  -- their order, each as it was resolved before or as it resolves now, and less those that resolve
  -- to none; it gets none when nothing is left. The setup records the groups as listened to.
  pub attach-handlers :
      let known = prune groups (or_default [] (Dict.get session l.resolved_targets)) in
      let chats = collect (chat_of (S.client acc) known) groups in
      (Dict.get session (attach S acc session groups l).listener_handlers ≡ handler_of chats)
      × (Dict.get session (attach S acc session groups l).listener_targets ≡ some groups)
  unfolding attach
  attach-handlers =
      let known = prune groups (or_default [] (Dict.get session l.resolved_targets)) in
      let start : Resolved = record {
        chats = [];
        known = known;
        chat_ids = l.node.chat_id_to_target;
      } in
      (
        get-handlers session (resolve_groups (S.client acc) groups start).chats l.listener_handlers
            ∙ ap handler_of (resolve_groups-chats (S.client acc) groups start),
        Dict.get-put session session groups l.listener_targets ∙ rw (==_refl session) refl,
      )

  -- A second setup with the same assignment of the listener does nothing.
  pub setup_if_here-attach :
      {R : Redis} (T : Telethon) (w : World R)
      → setup_if_here T S (some acc) session groups (attach S acc session groups l) w
        ≡ (some (attach S acc session groups l), w)
  setup_if_here-attach T w = rw (attach-handlers.1, subset_refl groups) refl

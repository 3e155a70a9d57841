-- ===== src/Database/Settings.antt =====
-- The settings that `init_db` of app/database.py leaves.
use telegram_client.Prelude.{
  String, ◌≡◌, refl, inl, inr, true, false, some, [], ◌∷◌, if◌then◌else◌, Bool-cases, Option-cases,
  ◌==◌, string_eq, ==_iff, subst, nat_eq, pair_eq, ℕ, ap, ◌∙◌, or_else,
}
use telegram_client.Dict
use telegram_client.Dict.{Dict, get-put, get-has, get-eq-none}
use telegram_client.Redis.{Redis}
use telegram_client.World.{World, SettingText, spells}
use telegram_client.Database.{
  insert_or_ignore, default_settings, reset_typing, init_db, initialised, opened,
}
use telegram_client.Data.{int_eq, role_eq}

get-insert_or_ignore :
    (key : String) (defaults settings : Dict String SettingText)
    → Dict.get key (insert_or_ignore defaults settings)
      ≡ or_else (Dict.get key settings) (Dict.get key defaults)
unfolding insert_or_ignore Dict.get
get-insert_or_ignore key [] settings = elim (Option-cases (Dict.get key settings)) [
  | inl e ↦ rw e refl
  | inr (v, e) ↦ rw e refl
]
get-insert_or_ignore key ((k, v) ∷ defaults) settings =
    let kept = get-insert_or_ignore key defaults settings in
    let added = get-insert_or_ignore key defaults (Dict.put k v settings) in
    elim (Bool-cases (k == key)) [
      | inl e ↦ elim (Bool-cases (Dict.has k settings)) [
        | inl h ↦
            let (u, got) =
              get-has key settings
                (subst (λ x. Dict.has x settings ≡ true) ((==_iff k key).0 e) h) in
            rw (h, e, kept, got) refl
        | inr h ↦
            let fresh =
              get-eq-none key settings
                (subst (λ x. Dict.has x settings ≡ false) ((==_iff k key).0 e) h) in
            rw (h, e, added, get-put k key v settings, e, fresh) refl
      ]
      | inr e ↦ elim (Bool-cases (Dict.has k settings)) [
        | inl h ↦ rw (h, e) kept
        | inr h ↦ rw (h, e, added, get-put k key v settings, e) refl
      ]
    ]

get-reset_typing :
    (key : String) (settings : Dict String SettingText)
    → Dict.get key (reset_typing settings) ≡ (
        if "typing_duration_max" == key
        then some (spells 3)
        else if "typing_duration_min" == key
        then some (spells 1)
        else Dict.get key settings)
unfolding reset_typing
get-reset_typing key settings = rw (get-put, get-put) refl

-- After `init_db` every setting has the value that it had, or else its default; the two typing
-- durations have their defaults, whatever they were.
pub get-init_db :
    {R : Redis} (api_id : ℕ) (api_hash key : String) (w : World R)
    → Dict.get key (init_db api_id api_hash w).1.db.settings ≡ (
        if "typing_duration_max" == key
        then some (spells 3)
        else if "typing_duration_min" == key
        then some (spells 1)
        else or_else
            (Dict.get key (opened w.db).settings)
            (Dict.get key (default_settings api_id api_hash)))
unfolding init_db initialised
get-init_db api_id api_hash key w =
    get-reset_typing key
      (insert_or_ignore (default_settings api_id api_hash) (opened w.db).settings)
    ∙ ap
        (λ o.
          if "typing_duration_max" == key
          then some (spells 3)
          else if "typing_duration_min" == key
          then some (spells 1)
          else o)
        (get-insert_or_ignore key (default_settings api_id api_hash) (opened w.db).settings)

-- ===== src/Worker/Resolve.antt =====
-- `resolve_and_join_target` of worker.py: the chat that a target's text stands for. What Telethon
-- answers, and Python's `lower`, are parameters. Of the characters for which `isdigit` holds, those
-- outside ASCII are left out. Joining the chat changes nothing that is modelled.
use Prim.Native.Char.{code}
use Prim.Native.String.{◌++◌}
use telegram_client.Prelude.{
  ℕ, String, Bool, false, not, ◌&&◌, ◌||◌, Option, none, some, List, [], ◌∷◌, nat_beq,
  if◌then◌else◌, ◌==◌, string_eq, nat_eq, pair_eq, or_else,
}
use telegram_client.Worker.Texts.{has_infix, is_empty}
use telegram_client.Worker.Texts.Numbers.{strip, int_of, is_digit}
use telegram_client.Worker.Texts.Parts.{after_last, lstrip_slash, rstrip_slash}
use telegram_client.Data.{ℤ, int_eq, role_eq}

pub record Entity : Type 0 where
  pub id : ℕ
  pub title : String
  pub username : String

pub record Dialog : Type 0 where
  pub name : String
  pub entity : Entity

-- How ImportChatInviteRequest ends: with a chat, with UserAlreadyParticipantError, or otherwise.
pub data Invite : Type 0 where
  joined : Entity → Invite
  already_participant no_chat : Invite

-- The answers to one account's client; `none` is an exception, or no chat.
pub record Client : Type 0 where
  pub get_entity_by_id : ℤ → Option Entity
  pub get_entity : String → Option Entity
  pub import_invite : String → Invite
  pub check_invite : String → Option Entity
  pub resolve_username : String → Option Entity
  pub get_dialogs : Option (List Dialog)
  pub lower : String → String

-- `s.lstrip("-").isdigit()`, where `after_digit` says that a digit was read.
unfoldable pub is_numeric : Bool → String → Bool
is_numeric after_digit String.[] = after_digit
is_numeric after_digit (String.◌∷◌ c s) =
    let rest : Bool = is_numeric (is_digit c) s in
    (is_digit c || (nat_beq (code c) 45 && not after_digit)) && rest

-- `s.lstrip("@")`
unfoldable pub lstrip_at : String → String
lstrip_at String.[] = String.[]
lstrip_at (String.◌∷◌ c s) =
    let rest : String = lstrip_at s in if nat_beq (code c) 64 then rest else String.◌∷◌ c s

unfoldable pub invite_hash : String → String
unfolding after_last lstrip_slash rstrip_slash strip
invite_hash s =
    let mark : String = if has_infix "+" s then "+" else "joinchat/" in
    strip (lstrip_slash (rstrip_slash (after_last mark s)))

-- `username_no_at`
unfoldable pub username_of : String → String
unfolding after_last lstrip_slash rstrip_slash lstrip_at strip
username_of s =
    let raw : String =
      if has_infix "t.me/" s then lstrip_slash (rstrip_slash (after_last "t.me/" s)) else s in
    strip (lstrip_at raw)

module _ (K : Client) where
  abbrev pub entity_of_id : Option ℤ → Option Entity
  entity_of_id none = none
  entity_of_id (some n) = K.get_entity_by_id n

  -- 1. A numeric chat id.
  unfoldable pub by_number : String → Option Entity
  unfolding is_numeric
  by_number s = if is_numeric false s then entity_of_id (int_of s) else none

  abbrev pub after_import : String → Invite → Option Entity
  after_import h (joined e) = some e
  after_import h already_participant = K.check_invite h
  after_import h no_chat = none

  -- 2. A private invitation.
  unfoldable pub by_invite : String → Option Entity
  unfolding invite_hash
  by_invite s =
      if has_infix "+" s || has_infix "joinchat/" s
      then after_import (invite_hash s) (K.import_invite (invite_hash s))
      else none

  -- The test of a dialog.
  unfoldable pub is_dialog_of : String → Dialog → Bool
  is_dialog_of target d =
      let name : String = strip d.name in
      let title : String = strip d.entity.title in
      let uname : String = strip d.entity.username in
      (not (is_empty name) && K.lower name == target)
      || (not (is_empty title) && K.lower title == target)
      || (not (is_empty uname) && K.lower uname == target)
      || has_infix target (K.lower name)
      || has_infix target (K.lower title)

  -- 5. The first of the joined dialogs that fits.
  unfoldable pub find_dialog : String → List Dialog → Option Entity
  unfolding is_dialog_of
  find_dialog target [] = none
  find_dialog target (d ∷ ds) =
      let rest = find_dialog target ds in if is_dialog_of target d then some d.entity else rest

  abbrev pub in_dialogs : String → Option (List Dialog) → Option Entity
  in_dialogs target none = none
  in_dialogs target (some ds) = find_dialog target ds

  -- 3. to 5.
  unfoldable pub by_name : String → Option Entity
  unfolding find_dialog
  by_name name = or_else (K.get_entity ("@" ++ name)) (
      or_else (K.get_entity name) (
        or_else (if is_empty name then none else K.resolve_username name)
          (in_dialogs (K.lower name) K.get_dialogs)))

  unfoldable pub resolve_and_join_target : String → Option Entity
  unfolding by_number by_invite username_of
  resolve_and_join_target target_str =
      let clean : String = strip target_str in
      if is_empty clean
      then none
      else or_else (by_number clean) (or_else (by_invite clean) (by_name (username_of clean)))

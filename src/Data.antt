-- ===== src/Data.antt =====
-- The records that the backend stores: rows of app/database.py, and the JSON objects of
-- app/queue_manager.py.
use telegram_client.Prelude.{
  ℕ, String, ◌≡◌, ◌↔◌, Bool, true, false, Option, List, arith, Equality, nat_beq, nat_beq_iff,
}
use telegram_client.Dict.{Dict}

-- A Python `int` that may be negative: `negsuc n` is -(n + 1). Chat ids of groups are negative.
pub data ℤ : Type 0 where
  pos : ℕ → ℤ
  negsuc : ℕ → ℤ

unfoldable pub int_beq : ℤ → ℤ → Bool
int_beq (pos a) (pos b) = nat_beq a b
int_beq (negsuc a) (negsuc b) = nat_beq a b
int_beq _ _ = false

pub int_beq_iff : (a b : ℤ) → (int_beq a b ≡ true) ↔ (a ≡ b)
unfolding int_beq
int_beq_iff (pos a) (pos b) = ground (arith, nat_beq_iff a b)
int_beq_iff (negsuc a) (negsuc b) = ground (arith, nat_beq_iff a b)
int_beq_iff (pos a) (negsuc b) = ground arith
int_beq_iff (negsuc a) (pos b) = ground arith

instance abbrev pub int_eq : Equality ℤ
int_eq = record { is_same = int_beq; is_same_iff = int_beq_iff }

-- accounts.role
pub data Role : Type 0 where
  listener replier : Role

unfoldable pub role_beq : Role → Role → Bool
role_beq listener listener = true
role_beq replier replier = true
role_beq _ _ = false

pub role_beq_iff : (a b : Role) → (role_beq a b ≡ true) ↔ (a ≡ b)
unfolding role_beq
role_beq_iff listener listener = ground arith
role_beq_iff listener replier = ground arith
role_beq_iff replier listener = ground arith
role_beq_iff replier replier = ground arith

instance abbrev pub role_eq : Equality Role
role_eq = record { is_same = role_beq; is_same_iff = role_beq_iff }

-- accounts.status
pub data Status : Type 0 where
  active typing resting flood_wait error disabled unauthorized : Status

-- A row of `accounts`: the columns that the backend's decisions read.
pub record Account : Type 0 where
  pub id : ℕ
  pub phone : String
  pub session_name : String
  pub server_group : ℤ
  pub role : Role
  pub status : Status
  pub flood_until : ℕ

-- { session_name: [group1, group2, ...] }
abbrev pub Assignments : Type 0
Assignments = Dict String (List String)

-- {"primary": session1, "backup": session2}
pub record Pair : Type 0 where
  pub primary : String
  pub backup : String

-- { group_target: {"primary": session1, "backup": session2} }
abbrev pub Pairs : Type 0
Pairs = Dict String Pair

-- The value of a worker in the registry: {"heartbeat": ..., "status": ...}.
pub record WorkerInfo : Type 0 where
  pub heartbeat : ℕ
  pub status : String

-- The payload of `enqueue_message`.
pub record Job : Type 0 where
  pub chat_id : ℤ
  pub msg_id : ℕ
  pub text : String
  pub sender_id : Option ℤ
  pub sender_name : String
  pub reply_to_msg_id : Option ℕ
  pub is_reply : Bool
  pub retry_count : ℕ

pub data Level : Type 0 where
  info warning success failure : Level

-- The payload of `push_worker_log`, less the formatted details.
pub record LogEntry : Type 0 where
  pub action : String
  pub level : Level
  pub phone : Option String
  pub server_group : Option ℤ
  pub target : Option ℤ

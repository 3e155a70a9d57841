-- ===== src/Tests/Delivery.antt =====
-- Runs of the queue of app/queue_manager.py.
use telegram_client.Prelude.{
  ◌≡◌, refl, [], ◌∷◌, ℕ, ◌&&◌, ◌||◌, nat_beq, ◌==◌, string_eq, nat_eq, pair_eq,
}
use telegram_client.Redis.Local.{local_server-Laws}
use telegram_client.Data.{negsuc, Pairs, ℤ, int_eq, role_eq}
use telegram_client.Queue.Jobs.{is_duplicate_and_mark}
use telegram_client.Queue.Delivery.{is_seen, pending, mark-is_seen}
use telegram_client.Tests.{online_world, one_job}

mark-is_seen_example :
    let (is_dup, w') = is_duplicate_and_mark (negsuc 99) 7 online_world in
    (is_dup ≡ is_seen local_server-Laws (negsuc 99) 7 online_world)
    × ((c : ℤ) (m : ℕ)
        → is_seen local_server-Laws c m w'
          ≡ ((negsuc 99 == c && nat_beq 7 m) || is_seen local_server-Laws c m online_world))
mark-is_seen_example = mark-is_seen local_server-Laws (negsuc 99) 7 online_world

pub one_pending : pending local_server-Laws online_world ≡ one_job ∷ []
unfolding pending online_world local_server-Laws
one_pending = refl

abbrev pairs : Pairs
pairs = ("alpha", record { primary = "acc_111"; backup = "acc_222" }) ∷ []

-- ===== src/Server/Repository/Stats.antt =====
-- crates/server/src/repository/stats.rs
use rsmsg.Base.{
  ltb, leb, is_some, is_none, length, filter, count, ℕ, ◌+◌, Bool, ◌&&◌, some, List, [], ◌∷◌,
}
use rsmsg.Server.State.{Blob}
use rsmsg.Server.Monad.{Query}

pub record ServerStats : Type 0 where
  pub users_total : ℕ
  pub devices_total : ℕ
  pub active_tokens_total : ℕ
  pub messages_sent_total : ℕ
  pub messages_delivered_total : ℕ
  pub messages_read_total : ℕ
  pub messages_pending_total : ℕ
  pub messages_sent_last_10m : ℕ
  pub blobs_total : ℕ
  pub blobs_bytes_total : ℕ
  pub blobs_created_last_10m : ℕ
  pub blobs_bytes_last_10m : ℕ

-- `created_at >= NOW() - INTERVAL '10 minutes'`
abbrev pub is_recent : ℕ → ℕ → Bool
is_recent now created_at = leb now (created_at + 600_000)

unfoldable pub total_bytes : List Blob → ℕ
total_bytes [] = 0
total_bytes (b ∷ bs) = length b.bytes + total_bytes bs

unfoldable pub fetch_server_stats : Query ServerStats
unfolding total_bytes
fetch_server_stats t n d = some (
  record {
    users_total = length d.users;
    devices_total = length d.devices;
    active_tokens_total = count (λ k. is_none k.revoked_at && ltb t.now k.expires_at) d.tokens;
    messages_sent_total = length d.messages;
    messages_delivered_total = count (λ m. is_some m.delivered_at) d.messages;
    messages_read_total = count (λ m. is_some m.acked_at) d.messages;
    messages_pending_total = count (λ m. is_none m.delivered_at) d.messages;
    messages_sent_last_10m = count (λ m. is_recent t.now m.created_at) d.messages;
    blobs_total = length d.blobs;
    blobs_bytes_total = total_bytes d.blobs;
    blobs_created_last_10m = count (λ b. is_recent t.now b.created_at) d.blobs;
    blobs_bytes_last_10m = total_bytes (filter (λ b. is_recent t.now b.created_at) d.blobs);
  },
  d,
)

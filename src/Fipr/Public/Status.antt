-- ===== src/Fipr/Public/Status.antt =====
-- pkg/fipr/public.go: a shard's status as one end sends it and the other end reads it.
use sdsyslog.Common.{◌≡◌, refl, Bool, true, false, ◌||◌, ok, err, if◌then◌else◌, ◌==◌}
use sdsyslog.Fipr.{Session, bare, shard_shutdown}
use sdsyslog.Fipr.Public.{read_shard_status, shard_status_byte, message_status_byte, msg_existing}

-- The client reads whether the shard is draining, and an error where it neither runs nor drains;
-- whether a message exists is read as it was sent.
pub read_shard_status-shard_status_byte :
    (running draining exists : Bool) (s : Session)
    → (read_shard_status (shard_status_byte running draining) s
        ≡ (s, if running || draining then ok draining else err (bare shard_shutdown)))
      × ((message_status_byte exists == msg_existing) ≡ exists)
unfolding read_shard_status
read_shard_status-shard_status_byte true true true s = (refl, refl)
read_shard_status-shard_status_byte true true false s = (refl, refl)
read_shard_status-shard_status_byte true false true s = (refl, refl)
read_shard_status-shard_status_byte true false false s = (refl, refl)
read_shard_status-shard_status_byte false true true s = (refl, refl)
read_shard_status-shard_status_byte false true false s = (refl, refl)
read_shard_status-shard_status_byte false false true s = (refl, refl)
read_shard_status-shard_status_byte false false false s = (refl, refl)

-- ===== src/Findings/Status.antt =====
-- `RuntimeServiceStatus::from_status_text`, and the tests on what it says.
use docker_map.Common.{
  Bool, true, false, ◌||◌, if◌then◌else◌, Text, codes, text_eq, starts_with, to_ascii_lowercase,
  map,
}
use docker_map.Common.Maps.{text_Ord}
use docker_map.Common.Pairs.{pair_Ord}
use docker_map.Models.Kinds.{
  runtime_provider_kind_Enum, runtime_node_kind_Enum, runtime_relationship_kind_Enum,
}
use docker_map.Models.Runtime.{RuntimeServiceStatus}

-- `RuntimeServiceStatus::from_status_text`.
unfoldable pub from_status_text : Text → RuntimeServiceStatus
unfolding to_ascii_lowercase starts_with text_eq
from_status_text value =
    let lower = map to_ascii_lowercase value in
    if starts_with (codes "up") lower || text_eq lower (codes "running")
    then RuntimeServiceStatus.running
    else if text_eq lower (codes "starting")
        || (text_eq lower (codes "created") || text_eq lower (codes "restarting"))
    then RuntimeServiceStatus.starting
    else if text_eq lower (codes "stopping")
    then RuntimeServiceStatus.stopping
    else if text_eq lower (codes "stopped")
        || (text_eq lower (codes "exited")
            || (starts_with (codes "exited") lower
                || (text_eq lower (codes "dead")
                    || (text_eq lower (codes "paused") || text_eq lower (codes "removing")))))
    then RuntimeServiceStatus.stopped
    else if text_eq lower (codes "degraded")
    then RuntimeServiceStatus.degraded
    else if text_eq lower (codes "failed") || text_eq lower (codes "error")
    then RuntimeServiceStatus.failed
    else RuntimeServiceStatus.unknown

abbrev pub is_running : RuntimeServiceStatus → Bool
is_running RuntimeServiceStatus.running = true
is_running _ = false

abbrev pub is_stopped_or_failed : RuntimeServiceStatus → Bool
is_stopped_or_failed RuntimeServiceStatus.stopped = true
is_stopped_or_failed RuntimeServiceStatus.failed = true
is_stopped_or_failed _ = false

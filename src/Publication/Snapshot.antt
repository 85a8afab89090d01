-- ===== src/Publication/Snapshot.antt =====
-- `publish_docker_snapshot`: the inventory as it leaves the daemon. The cached inventory is cloned
-- and stays as it was.
use docker_map.Common.{List, map, Text}
use docker_map.Models.{
  ContainerMount, ContainerRecord, ImageRecord, NetworkRecord, VolumeRecord, DockerSnapshot,
}
use docker_map.Publication.Entities.{published_text, within}

abbrev pub redact_display_strings : List Text → List Text
redact_display_strings = map published_text

unfoldable pub redact_mount : ContainerMount → ContainerMount
redact_mount mount = record mount {
  id = published_text mount.id;
  source = within published_text mount.source;
  target = published_text mount.target;
}

unfoldable pub redact_container_record : ContainerRecord → ContainerRecord
redact_container_record container = record container {
  id = published_text container.id;
  name = published_text container.name;
  image = published_text container.image;
  status = published_text container.status;
  role = published_text container.role;
  networks = redact_display_strings container.networks;
  ports = redact_display_strings container.ports;
  depends_on = redact_display_strings container.depends_on;
  mounts = map redact_mount container.mounts;
}

unfoldable pub redact_image : ImageRecord → ImageRecord
redact_image image_record = record image_record {
  image = published_text image_record.image;
  containers = redact_display_strings image_record.containers;
  status = published_text image_record.status;
}

unfoldable pub redact_network : NetworkRecord → NetworkRecord
redact_network network = record network {
  id = published_text network.id;
  name = published_text network.name;
  driver = published_text network.driver;
  members = redact_display_strings network.members;
}

unfoldable pub redact_volume : VolumeRecord → VolumeRecord
redact_volume volume = record volume {
  id = published_text volume.id;
  name = published_text volume.name;
  attached_to = redact_display_strings volume.attached_to;
}

unfoldable pub redact_docker_snapshot : DockerSnapshot → DockerSnapshot
redact_docker_snapshot snapshot = record snapshot {
  containers = map redact_container_record snapshot.containers;
  images = map redact_image snapshot.images;
  networks = map redact_network snapshot.networks;
  volumes = map redact_volume snapshot.volumes;
}

abbrev pub publish_docker_snapshot : DockerSnapshot → DockerSnapshot
publish_docker_snapshot = redact_docker_snapshot

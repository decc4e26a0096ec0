-- ===== src/Worker/Disks.antt =====
-- pkg/controller/worker/machine.go and actuator.go: the disks of the machines of a pool.
use gardener_extension_provi.Common.{
  String, Bool, true, false, Option, none, some, List, [], ◌∷◌, ◌==◌, text_of, if◌then◌else◌,
}
use gardener_extension_provi.Failure.{wrap, Result, ok, err}
use gardener_extension_provi.Worker.Objects.{PoolVolume, DataVolume, WorkerPool, Disk, Surroundings}

abbrev pub renamed_type : String → String
renamed_type type = if type == "pd-standard" then "Standard" else type

module _ {W : Type 0} (env : Surroundings W) where
  unfoldable pub create_disk_spec :
      String
      → Bool
      → Option String
      → Option String
      → Option String
      → List (String × String)
      → Result Disk
  create_disk_spec size boot machine_image project disk_type labels = elim (env.disk_size size) [
    | err e ↦ err e
    | ok volume_size ↦ ok record {
      auto_delete = true;
      boot = boot;
      size_gb = volume_size;
      labels = labels;
      image = text_of machine_image;
      project = text_of project;
      type = renamed_type (text_of disk_type);
    }
  ]

  unfoldable pub create_disk_spec_for_volume :
      PoolVolume → String → String → Bool → List (String × String) → Result Disk
  unfolding create_disk_spec
  create_disk_spec_for_volume volume machine_image project boot labels =
      create_disk_spec volume.size boot (some machine_image) (some project) volume.type labels

  unfoldable pub create_disk_spec_for_data_volume :
      DataVolume → Bool → List (String × String) → Result Disk
  unfolding create_disk_spec
  create_disk_spec_for_data_volume volume boot labels =
      create_disk_spec volume.size boot none none none labels

  unfoldable pub data_disks : List (String × String) → List DataVolume → Result (List Disk)
  unfolding create_disk_spec_for_data_volume
  data_disks labels [] = ok []
  data_disks labels (v ∷ vs) = elim (create_disk_spec_for_data_volume v false labels) [
    | err e ↦ err (wrap "could not create data volume:" e)
    | ok d ↦ elim (data_disks labels vs) [ ok rest ↦ ok (d ∷ rest) | err e ↦ err e ]
  ]

  unfoldable pub generate_disks :
      WorkerPool → String → String → List (String × String) → Result (List Disk)
  unfolding create_disk_spec_for_volume data_disks
  generate_disks pool image project labels = elim pool.volume [
    | none ↦ data_disks labels pool.data_volumes
    | some v ↦ elim (create_disk_spec_for_volume v image project true labels) [
      | err e ↦ err (wrap "could not create root volume:" e)
      | ok d ↦ elim (data_disks labels pool.data_volumes) [
        | ok rest ↦ ok (d ∷ rest)
        | err e ↦ err e
      ]
    ]
  ]

-- ===== src/Tests/Adapters.antt =====
-- The theorems of the process adapters at concrete inputs.
use slam_system_manager.Base.{ℕ, true, false, none, some, [], ◌∷◌, String}
use slam_system_manager.Outcome.{value}
use slam_system_manager.Steps.{Ends, Watched}
use slam_system_manager.Store.{written}
use slam_system_manager.Adapters.{Host, MappingHost}
use slam_system_manager.Adapters.Configuration.{LocalizationAdapterConfig}
use slam_system_manager.Adapters.Localization.{start_localization}
use slam_system_manager.Adapters.Ready.{IsReady, start_localization-IsReady}
use slam_system_manager.Adapters.MappingConfig.{MappingAdapterConfig}
use slam_system_manager.Adapters.Mapping.{start_mapping, save_map}
use slam_system_manager.Adapters.Saved.{
  IsStarted, IsSaved, start_mapping-IsStarted, save_map-IsSaved,
}
use slam_system_manager.Tests.Configs.{system_file}
use slam_system_manager.Tests.Processes.{machine, busy, idle}

abbrev host : Host
host = record {
  os = machine;
  FilePath = String;
  is_absolute = λ p. true;
  filename = λ p. "map.pcd";
  text_of = λ p. p;
  is_regular_file = λ p m. true;
  file_size = λ p m. (100, none);
  count_publishers = λ topic m. value 1;
  double_text = λ n. "1";
  int_text = λ n. "1";
}

abbrev localization_config : LocalizationAdapterConfig ℕ
localization_config = record {
  startup_timeout_sec = 1000000000;
  startup_stability_sec = 100000000;
  required_topics = "/localization/odometry" ∷ [];
}

start_localization-IsReady_example :
    Watched
      (IsReady host localization_config)
      []
      (start_localization host localization_config "office" "/maps/office/map.pcd")
start_localization-IsReady_example =
    start_localization-IsReady host localization_config "office" "/maps/office/map.pcd"

abbrev mapping_host : MappingHost
mapping_host = record {
  host = host;
  yaml = system_file;
  slash = λ p name. name;
  from_text = λ s. s;
  parent_path = λ p. "/maps/office";
  has_parent_path = λ p. false;
  is_regular = λ p m. value true;
  is_directory = λ p m. value true;
  remove_file = λ p m. (m, none);
  remove = λ p m. (m, value tt);
  rename = λ p q m. (m, none);
  write_file = λ p text m. (m, written);
  getpid = "1";
  load_file = λ p m. value "";
  assign_text = λ keys text node. node;
  assign_bool = λ keys b node. node;
  emit = λ node. some "template";
  package_share_directory = λ name. value "/share";
  service_is_ready = λ m. m.alive;
  wait_for_service = λ timeout m. (m, m.alive);
  call_service = λ timeout m. (m, some (true, ""));
}

abbrev mapping_config : MappingAdapterConfig ℕ
mapping_config = record {
  template_config = "package://slam/template.yaml";
  runtime_config_name = "mapping_runtime.yaml";
  save_service_name = "/map_save";
  save_service_type = "std_srvs/srv/Trigger";
  startup_timeout_sec = 10;
  save_timeout_sec = 60;
}

start_mapping-IsStarted_example :
    Ends
      (IsStarted mapping_host mapping_config)
      (start_mapping mapping_host mapping_config "office" "/maps/office/map.pcd")
      idle
start_mapping-IsStarted_example =
    start_mapping-IsStarted mapping_host mapping_config "office" "/maps/office/map.pcd" idle

save_map-IsSaved_example :
    Ends
      (IsSaved mapping_host mapping_config "/maps/office/map.pcd")
      (save_map mapping_host mapping_config "/maps/office/map.pcd")
      busy
save_map-IsSaved_example = save_map-IsSaved mapping_host mapping_config "/maps/office/map.pcd" busy

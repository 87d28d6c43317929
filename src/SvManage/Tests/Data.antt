-- ===== src/SvManage/Tests/Data.antt =====
-- sv_manage: a host, a world and some mods for the tests.
use mind_craft.Base.{ℕ, Text, codes, true, false, none, some, [], ◌∷◌}
use mind_craft.Yapper.Types.{ModInfo, included, unbounded, both, idle}
use mind_craft.Yapper.Tests.{test_libs}
use mind_craft.SvManage.World.{Shared, World, Host, dir}

abbrev pub host : Host ℕ
host = record {
  libs = test_libs;
  conf_path = codes "/s";
  expanduser = some;
  debug_error = λ _. codes "error";
}

abbrev pub shared : Shared ℕ
shared = record {
  account = codes "me";
  server = codes "s";
  should_run = false;
  reboot_queued = false;
  status = idle;
  zip_up_to_date = false;
  mod_cache_up_to_date = false;
  mods_cache = none;
}

-- A mod called `id` that needs the mod `dep` from version 2.
abbrev pub needing : Text → Text → ModInfo ℕ
needing id dep = record {
  filename = id;
  path = id;
  mod_id = id;
  name = none;
  description = none;
  version = 3;
  logo = none;
  url = none;
  credits = none;
  authors = none;
  dependencies =
      record {
        mod_id = dep;
        mandatory = true;
        min_version = included 2;
        max_version = unbounded;
        side = both;
      }
      ∷ [];
}

-- The mod listing is cached, so that no jar file is read.
abbrev pub world : World ℕ
world = record {
  shared = record shared {
    mod_cache_up_to_date = true;
    mods_cache = some (needing (codes "a") (codes "a") ∷ []);
  };
  notifs = [];
  fs = (codes "/s", dir) ∷ (codes "/s/mods", dir) ∷ (codes "/s.bak", dir) ∷ [];
  faults = [];
  stdin = [];
}

-- ===== src/Yapper/Conf/Tests.antt =====
-- yapper/src/conf.rs: the theorems on configurations at concrete inputs.
use mind_craft.Base.{
  ℕ, ◌+◌, true, none, some, Option, [], ◌∷◌, ◌≡◌, refl, length, inr, ok, err, to_option,
}
use mind_craft.Yapper.ModParser.Parse.{Bytes}
use mind_craft.Yapper.Conf.{
  Serde, Config, Calls, save, with_config_mut, write_at, write_bytes, init,
}
use mind_craft.Yapper.Conf.Durable.{IsReadable, init-with_config_mut, with_config_mut_loses}

abbrev read_number : Bytes → Option ℕ
read_number [] = none
read_number (n ∷ []) = some n
read_number (_ ∷ _ ∷ _) = none

-- A number as one byte.
abbrev serde : Serde ℕ
serde = record { write = λ n. some (n ∷ []); read = read_number; initial = 0 }

serde-IsReadable : IsReadable serde
unfolding IsReadable
serde-IsReadable n bytes e = cc

abbrev working : Calls
working = record { opened = true; set_len = true; seek = true; written = none; flush = true }

abbrev full_disk : Calls
full_disk = record working { written = some 0 }

abbrev loaded : Config ℕ
loaded = record { config = 3; file = record { content = 3 ∷ []; position = 1 } }

abbrev double : ℕ → ℕ × ℕ
double n = (n, n + n)

doubled : (with_config_mut serde double working loaded).0 ≡ ok 3
unfolding with_config_mut save write_bytes write_at
doubled = refl

init-with_config_mut_example :
    let after = (with_config_mut serde double working loaded).1 in
    (after.config ≡ (double 3).1)
    × ((init serde working (some after.file.content)).0
        ≡ ok (record after {
          file = record { content = after.file.content; position = length after.file.content };
        }))
init-with_config_mut_example =
    init-with_config_mut serde double working loaded 3 working serde-IsReadable doubled refl

with_config_mut_loses_example :
    let (result, after) = with_config_mut serde double full_disk loaded in
    (result ≡ err "Failed to flush configuration changes")
    × (after.config ≡ (double 3).1)
    × (to_option (init serde working (some after.file.content)).0 ≡ none)
with_config_mut_loses_example =
    with_config_mut_loses serde double full_disk loaded working refl refl (inr refl)

-- ===== src/Tests/Distribution.antt =====
-- The theorems on the writes of channels and on the query that picks one, at concrete inputs.
use new_api_blues.Prelude.{
  ℕ, pos, String, Option, none, true, false, some, ◌≡◌, refl, get_elem?, ◌||◌, ◌==◌,
}
use new_api_blues.Model.Store.{Channel, channel_row, find_row, statement, ok}
use new_api_blues.Model.Channels.Writes.{
  candidates, satisfied, max_priority, of_priority, get_random_satisfied_channel,
}
use new_api_blues.Model.Channels.Live.{Live, live, Fits, set_status, write, write-Live}
use new_api_blues.Model.Channels.Random.{random-enabled, highest}
use new_api_blues.Middleware.Distributor.{chosen, distribute}
use new_api_blues.Middleware.Distributor.Enabled.{distribute-enabled}
use new_api_blues.Tests.Data.{world, channel_one, ability_one}

world-Live : Live world
unfolding live find_row
world-Live = refl

channel_one_found : channel_row world 1 ≡ some channel_one
unfolding find_row
channel_one_found = refl

channel_one-Fits : Fits (set_status 1 2) world
unfolding Fits
channel_one-Fits = (channel_one, channel_one_found)

write-Live_example : Live (write (set_status 1 2) world).1
write-Live_example = write-Live (set_status 1 2) world refl channel_one-Fits world-Live

first_drawn : get_elem? (candidates "default" "gpt-4" false world.abilities) 0 ≡ some ability_one
unfolding candidates satisfied max_priority of_priority
first_drawn = refl

random-enabled_example :
    (c : Channel) × (get_random_satisfied_channel 0 "default" "gpt-4" false world ≡ (ok c, world))
    × ((c.status == 1) ≡ true)
    × (c.id ≡ 1)
    × (ability_one.group ≡ "default")
    × (ability_one.model ≡ "gpt-4")
    × (ability_one.enabled ≡ true)
    × ((k : ℕ) × (get_elem? world.abilities k ≡ some ability_one))
    × ((false || highest "default" "gpt-4" (some (pos 5)) world.abilities) ≡ true)
random-enabled_example =
    random-enabled 0 "default" "gpt-4" false world ability_one refl world-Live first_drawn

abbrev no_number : String → Option ℕ
no_number s = none

-- The choice for a request that names no channel.
shared :
    (distribute no_number
      (λ g m. get_random_satisfied_channel 0 g m false)
      "default"
      none
      "gpt-4"
      world).0
    ≡ ok (chosen channel_one "gpt-4")
unfolding distribute get_random_satisfied_channel candidates satisfied max_priority of_priority
    statement find_row
shared = refl

distribute-enabled_example : (channel_one.status == 1) ≡ true
distribute-enabled_example =
    distribute-enabled no_number 0 "default" none "gpt-4" world channel_one "gpt-4" refl world-Live
      shared

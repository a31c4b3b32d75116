-- ===== src/Structure/Tests.antt =====
-- Two houses, one with a bound lamp, and the theorems at them.
use kz_home_core.Common.{
  true, false, none, some, List, All, [], ◌∷◌, ◌≡◌, refl, str_eq, eq_iff, Bool-cases, inl, inr,
  arith,
}
use kz_home_core.Database.{bound_house, active}
use kz_home_core.Access.Roles.{
  owner, is_granted, house_read, device_read, scene_read, automation_read,
}
use kz_home_core.Access.Members.{membership_for, has_permission, accessible_house_ids}
use kz_home_core.Structure.Tables.{
  Site, Placed, floor_house, room_house, device_house, device_location, database,
  bound_in_structure, structure_house, structure_mutation,
}
use kz_home_core.Structure.Crud.{References, delete_floor, update_room, delete_house}
use kz_home_core.Structure.Contents.{delete_device}
use kz_home_core.Structure.Requests.{
  Request, patch_house, patch_floor, patch_room, delete_floor_of, delete_device_of, delete_house_of,
  post_floor, delete_member_of, serve, run,
}
use kz_home_core.Structure.Chains.{IsConsistent, is_consistent}
use kz_home_core.Structure.Drops.{IsStored}
use kz_home_core.Structure.Views.{Same}
use kz_home_core.Structure.Reads.{
  LoggedEvent, get_house, get_floor, get_room, get_device, get_scene, get_automation, list_devices,
  list_events,
}
use kz_home_core.Structure.Readers.{is_readable, answered, listed, ShowsOwn}
use kz_home_core.Structure.Shown.{house_for, reads_permitted}
use kz_home_core.Structure.Events.{needed, list_events-IsShown}
use kz_home_core.Structure.Served.{run-IsConsistent}
use kz_home_core.Structure.Strangers.{run-Same}

abbrev lamp : Placed
lamp = record {
  id = "lamp";
  name = "Lamp";
  room_id = "kitchen";
  type = "light";
  state = [];
  online = true;
  capabilities = [];
}

-- Ann owns the home, where a lamp is bound, and Bob the office.
abbrev two_houses : Site
two_houses = record {
  houses = record { id = "home"; name = "Home" } ∷ record { id = "office"; name = "Office" } ∷ [];
  floors =
      record { id = "ground"; house_id = "home"; name = "Ground" }
      ∷ record { id = "upper"; house_id = "home"; name = "Upper" }
      ∷ record { id = "desks"; house_id = "office"; name = "Desks" }
      ∷ [];
  rooms =
      record { id = "kitchen"; floor_id = "ground"; name = "Kitchen" }
      ∷ record { id = "hall"; floor_id = "desks"; name = "Hall" }
      ∷ [];
  devices = lamp ∷ [];
  scenes = [];
  rules = [];
  memberships =
      record { id = "1"; user_id = "ann"; house_id = "home"; role = owner }
      ∷ record { id = "2"; user_id = "ann"; house_id = "office"; role = owner }
      ∷ record { id = "3"; user_id = "bob"; house_id = "office"; role = owner }
      ∷ [];
  users = "ann" ∷ "bob" ∷ [];
  physical_devices =
      record {
        device_id = "d1";
        hardware_id = "hw";
        hardware_model = "m";
        status = active;
        claim_code_hash = none;
        house_id = some "home";
        bound_device_id = some "lamp";
      }
      ∷ [];
  denials = [];
}

abbrev no_references : References
no_references = record { to_house = λ x. false; to_room = λ x. false; to_device = λ x. false }

two_houses-IsStored : IsStored two_houses
two_houses-IsStored =
    ((refl, (refl, (refl, tt))), (refl, (refl, tt)), (refl, tt), tt, tt, (refl, (refl, (refl, tt))))

two_houses-IsConsistent : IsConsistent two_houses
unfolding is_consistent bound_house database device_location room_house floor_house
two_houses-IsConsistent d = elim (Bool-cases (str_eq "lamp" d)) [
  | inl same ↦ ground (arith, (eq_iff "lamp" d).0 same)
  | inr other ↦ ground arith
]

-- What Ann tries with the lamp; that the kitchen moves upstairs goes through.
abbrev moves : List Request
moves =
    patch_room "ann" "kitchen" (record { floor_id = some "upper"; name = none })
    ∷ patch_room "ann" "kitchen" (record { floor_id = some "desks"; name = none })
    ∷ delete_device_of "ann" "lamp"
    ∷ delete_floor_of "ann" "upper"
    ∷ delete_house_of "ann" "home"
    ∷ []

lamp_upstairs : room_house "kitchen" (run no_references moves two_houses) ≡ some "home"
unfolding serve room_house floor_house delete_floor update_room delete_house delete_device
    structure_mutation structure_house bound_in_structure device_house device_location database
    bound_house membership_for has_permission is_granted
lamp_upstairs = refl

run-IsConsistent_example : IsConsistent (run no_references moves two_houses)
run-IsConsistent_example =
    run-IsConsistent no_references moves two_houses two_houses-IsStored two_houses-IsConsistent

-- What Bob tries in the home.
abbrev attempts : List Request
attempts =
    patch_house "bob" "home" (some "Mine")
    ∷ patch_floor "bob" "desks" (record { house_id = some "home"; name = none })
    ∷ post_floor "bob" (record { id = "attic"; house_id = "office"; name = "Attic" })
    ∷ delete_device_of "bob" "lamp"
    ∷ delete_member_of "bob" "home" "ann"
    ∷ []

run-Same_example : Same "home" two_houses (run no_references attempts two_houses)
unfolding membership_for
run-Same_example =
    run-Same no_references "home" (record { id = "home"; name = "Home" }) attempts two_houses refl
      two_houses-IsStored two_houses-IsConsistent (refl, (refl, (refl, (refl, (refl, tt)))))

-- Ann reads the kitchen, and the lights that are online.
reads_permitted_example :
    All
      (λ r. is_readable "ann" house_read two_houses (some "kitchen") ≡ true)
      (answered (get_house "ann" "kitchen" two_houses))
    × All
        (λ r. is_readable "ann" house_read two_houses (some r.house_id) ≡ true)
        (answered (get_floor "ann" "kitchen" two_houses))
    × All
        (λ r. is_readable "ann" house_read two_houses (floor_house r.floor_id two_houses) ≡ true)
        (answered (get_room "ann" "kitchen" two_houses))
    × All
        (λ d. is_readable "ann" device_read two_houses (house_for two_houses d) ≡ true)
        (answered (get_device "ann" "kitchen" two_houses))
    × All
        (λ r. is_readable "ann" scene_read two_houses (some r.house_id) ≡ true)
        (answered (get_scene "ann" "kitchen" two_houses))
    × All
        (λ r. is_readable "ann" automation_read two_houses (some r.house_id) ≡ true)
        (answered (get_automation "ann" "kitchen" two_houses))
    × All
        (λ d. is_readable "ann" device_read two_houses (house_for two_houses d) ≡ true)
        (listed (list_devices "ann" none none (some "light") (some true) two_houses))
    × ShowsOwn "ann" two_houses
reads_permitted_example =
    reads_permitted "ann" "kitchen" none none (some "light") (some true) two_houses

kitchen_read :
    answered (get_room "ann" "kitchen" two_houses)
    ≡ record { id = "kitchen"; floor_id = "ground"; name = "Kitchen" } ∷ []
unfolding room_house floor_house membership_for has_permission is_granted
kitchen_read = refl

abbrev office_log : List LoggedEvent
office_log =
    record {
      id = "e1";
      house_id = some "home";
      event_type = "scene_started";
      entity_id = none;
      created_at = 1;
    }
    ∷ record {
      id = "e2";
      house_id = some "office";
      event_type = "authorization_denied";
      entity_id = none;
      created_at = 2;
    }
    ∷ record {
      id = "e3";
      house_id = some "office";
      event_type = "scene_started";
      entity_id = none;
      created_at = 3;
    }
    ∷ []

-- Bob is shown the two events of the office, the newer one first.
office_events :
    listed (list_events "bob" none none 5 office_log two_houses)
    ≡ record {
      id = "e3";
      house_id = some "office";
      event_type = "scene_started";
      entity_id = none;
      created_at = 3;
    }
      ∷ record {
        id = "e2";
        house_id = some "office";
        event_type = "authorization_denied";
        entity_id = none;
        created_at = 2;
      }
      ∷ []
unfolding accessible_house_ids is_granted
office_events = refl

list_events-IsShown_example :
    All
      (λ e. is_readable "bob" (needed e.event_type) two_houses e.house_id ≡ true)
      (listed (list_events "bob" none none 5 office_log two_houses))
list_events-IsShown_example = list_events-IsShown "bob" none none 5 office_log two_houses

-- ===== src/Room/Tests.antt =====
-- A room that is saved and loaded, and the list of rooms after two calls of `room_get`.
use boris.Prelude.{
  ℕ, suc, ◌≡◌, ◌≢◌, refl, ap, true, false, Option, none, some, [], ◌∷◌, arith, Bytes, codes, length,
  skip_space, strip_right, same_text,
}
use boris.Prelude.Decimal.{ten_digits, read_digits, digits_back}
use boris.Attr.{attr_find}
use boris.Fdb.Record.{Fits}
use boris.Fdb.Text.{format_pair, escape, escape_byte, is_plain}
use boris.Fdb.Write.{Disk, makepath, makepath_tmp}
use boris.Room.{Room, domain_room, room_fields, room_save, room_load}
use boris.Room.Saved.{Numerals, IsFresh, IsSavable, room_load-room_save}
use boris.Room.Cache.{RoomCache, room_get, search, hold, update, room_get_hangs}

digits-Numerals : Numerals ten_digits read_digits
unfolding ten_digits read_digits
digits-Numerals = record {
  reads_back = λ n h. ap (λ (v : ℕ). (v, [])) (digits_back n h);
  text = λ n. omega arith;
  starts = λ n e. omega (arith, e);
  short = λ n h. omega arith;
}

abbrev attic : Room
attic = record {
  dirty_fl = true;
  id = 7;
  name_short = some (codes "attic");
  name_long = none;
  desc_short = none;
  desc_long = some (codes "Dusty.\nDark.");
  owner = none;
  creator = none;
  extra_values = (record { name = codes "exit.down"; value = codes "8" }) ∷ [];
}

attic-IsSavable : IsSavable ten_digits read_digits attic
unfolding room_fields IsFresh attr_find same_text skip_space strip_right ten_digits
attic-IsSavable = record {
  numbered = omega arith;
  fields = (
    record {
      name = record { no_equals = ground arith; trimmed_left = refl; trimmed_right = refl };
      name_line = ground arith;
      value = omega arith;
    },
    (
      record {
        name = record { no_equals = ground arith; trimmed_left = refl; trimmed_right = refl };
        name_line = ground arith;
        value = omega arith;
      },
      (
        record {
          name = record { no_equals = ground arith; trimmed_left = refl; trimmed_right = refl };
          name_line = ground arith;
          value = omega arith;
        },
        (
          record {
            name = record { no_equals = ground arith; trimmed_left = refl; trimmed_right = refl };
            name_line = ground arith;
            value = omega arith;
          },
          tt,
        ),
      ),
    ),
  );
  extra = ((refl, refl, refl, refl, refl, refl, refl), tt);
  distinct = (refl, tt);
}

no_files : Disk
no_files p = none

attic-Fits : Fits 200 (room_fields ten_digits read_digits attic)
unfolding room_fields ten_digits format_pair escape escape_byte is_plain
attic-Fits = omega arith

room_load-room_save_example :
    (saved : Disk) × (room_save ten_digits read_digits true true true true attic no_files
      ≡ (1, (record attic { dirty_fl = false }, saved)))
    × (room_load ten_digits read_digits
          (suc (length (room_fields ten_digits read_digits attic)))
          200
          7
          saved
        ≡ some attic)
    × ((p : Bytes)
        → p ≢ makepath domain_room (ten_digits 7)
        → p ≢ makepath_tmp domain_room (ten_digits 7)
        → saved p ≡ no_files p)
room_load-room_save_example =
    room_load-room_save ten_digits read_digits digits-Numerals attic attic-IsSavable 200 no_files
      refl (omega arith) (omega arith) attic-Fits

-- no room is loaded; the next one is at the address 1
abbrev no_rooms : RoomCache
no_rooms = record { head = none; next = λ a. none; id = λ a. 0; refcount = λ a. 0 }

abbrev at_one : ℕ → Option ℕ
at_one n = some 1

abbrev once_held : RoomCache
once_held = hold 1 (record no_rooms { id = update no_rooms.id 1 7 })

held_once : room_get 5 at_one no_rooms 7 ≡ some (some 1, once_held)
unfolding room_get search
held_once = refl

held_twice : room_get 5 at_one once_held 7 ≡ some (some 1, hold 1 once_held)
unfolding room_get search
held_twice = refl

room_get_hangs_example : room_get 1000 at_one (hold 1 once_held) 8 ≡ none
room_get_hangs_example =
    room_get_hangs 5 5 1000 at_one no_rooms once_held (hold 1 once_held) 7 8 1 1 held_once
      held_twice (λ e. absurd (omega (arith, e))) (λ e. absurd (omega (arith, e)))

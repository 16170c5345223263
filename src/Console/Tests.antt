-- ===== src/Console/Tests.antt =====
-- Two characters from the keyboard of code/machine/console.cc, and one to the display.
use nachos_lab.Base.{◌≤◌, ◌≡◌, refl, arith, true, false, [], ◌∷◌, ◌++◌, map, err, assert}
use nachos_lab.Base.Int.{pos, int_of_char}
use nachos_lab.Interrupt
use nachos_lab.Interrupt.{Interrupt}
use nachos_lab.Console.{Console, eof, check_char_avail, put_char, write_done, get_char}
use nachos_lab.Console.Keyboard.{
  Keyboard, Reachable, begin, later, types, polls, gets, held, typed_order,
}

abbrev clock : Interrupt
clock = record {
  level = Interrupt.int_off;
  pending = [];
  in_handler = false;
  yield_on_return = false;
  status = Interrupt.system_mode;
  total_ticks = 0;
  idle_ticks = 0;
  system_ticks = 0;
  user_ticks = 0;
}

abbrev console : Console
console = record { put_busy = false; incoming = eof; chars_read = 0; chars_written = 0 }

abbrev after_two : Interrupt
unfolding Interrupt.schedule
after_two = record clock {
  pending =
      record { handler = 5; arg = 0; when = 100; type = Interrupt.console_read_int }
      ∷ record { handler = 5; arg = 0; when = 100; type = Interrupt.console_read_int }
      ∷ [];
}

-- 104 and 105 are typed, the first is taken, and the device holds the second.
abbrev second : Keyboard
second = record {
  console = record console { incoming = pos 105; chars_read = 2 };
  interrupt = after_two;
  available = 1;
  keys = [];
  typed = 104 ∷ 105 ∷ [];
  got = pos 104 ∷ [];
}

second-Reachable : Reachable 5 6 0 console clock second
unfolding check_char_avail get_char
second-Reachable =
    let typed = later (later begin (types 104 (omega arith))) (types 105 (omega arith)) in
    let first = later (later typed (polls true (105 ∷ []) _ _ refl)) (gets (omega arith)) in
    later first (polls true [] _ _ refl)

-- A display that is busy fails the ASSERT, and the character 255 is taken for EOF: it is lost.
tests_console :
    (put_char 5 6 0 (pos 65) (record console { put_busy = true }) clock ≡ err assert)
    × ((write_done (record console { put_busy = true })).put_busy ≡ false)
    × ((get_char (record console { incoming = int_of_char 255 })).0 ≡ eof)
unfolding put_char write_done get_char
tests_console = (refl, refl, refl)

typed_order_example :
    (map int_of_char second.typed
      ≡ second.got
        ++ (held second.available second.console.incoming ++ map int_of_char second.keys))
    × (second.available ≤ 1)
typed_order_example = typed_order 5 6 0 second-Reachable

-- ===== src/Console.antt =====
-- code/machine/console.cc and console.h: the console device and the SynchConsole on it. The files of the
-- host are arguments and results: the characters that the keyboard has and that are not read yet, and
-- the character that goes to the display. A `char` is signed, and EOF is -1.
pub mod Keyboard
mod Tests
use nachos_lab.Base.{
  ℕ, ◌+◌, ◌-◌, Bool, true, false, not, ◌||◌, List, [], ◌∷◌, ltb, ◌==◌, if◌then◌else◌, Result, ok,
  err, ◌>>=◌, ◌>>◌, check,
}
use nachos_lab.Base.Int.{ℤ, negsuc, int_eq, int_of_char}
use nachos_lab.Interrupt.{Interrupt, console_read_int, console_write_int, schedule}

-- The last two are counters of `stats`.
pub record Console : Type 0 where
  pub put_busy : Bool
  pub incoming : ℤ
  pub chars_read : ℕ
  pub chars_written : ℕ

abbrev pub eof : ℤ
eof = negsuc 0

abbrev pub console_time : ℕ
console_time = 100

-- Read(readFileNo, &c, sizeof(char)) and what follows, where the keyboard has a character.
unfoldable pub take_char : List ℕ → Console → Bool × List ℕ × Console
take_char [] c = (false, [], c)
take_char (key ∷ keys) c =
    (true, keys, record c { incoming = int_of_char key; chars_read = c.chars_read + 1 })

-- `poll` and `done` are the numbers of ConsoleReadPoll and ConsoleWriteDone, and `this` their argument.
module _ (poll done this : ℕ) where
  -- The constructor.
  unfoldable pub init : Interrupt → Result (Console × Interrupt)
  unfolding schedule
  init s = do
    s' ← schedule s poll this console_time console_read_int
    ok (record { put_busy = false; incoming = eof; chars_read = 0; chars_written = 0 }, s')

  -- True where `readHandler` is called.
  unfoldable pub check_char_avail :
      List ℕ → Console → Interrupt → Result ((Bool × List ℕ × Console) × Interrupt)
  unfolding schedule take_char
  check_char_avail keys c s = do
    s' ← schedule s poll this console_time console_read_int
    if not (int_eq c.incoming eof) then ok ((false, keys, c), s') else ok (take_char keys c, s')

  -- The character goes to the display.
  unfoldable pub put_char : ℤ → Console → Interrupt → Result (ℤ × Console × Interrupt)
  unfolding schedule
  put_char ch c s = do
    check (not c.put_busy)
    s' ← schedule s done this console_time console_write_int
    ok (ch, record c { put_busy = true }, s')

-- Up to the call of `writeHandler`.
unfoldable pub write_done : Console → Console
write_done c = record c { put_busy = false; chars_written = c.chars_written + 1 }

unfoldable pub get_char : Console → ℤ × Console
get_char c = (c.incoming, record c { incoming = eof })

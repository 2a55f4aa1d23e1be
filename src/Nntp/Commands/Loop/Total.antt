-- ===== src/Nntp/Commands/Loop/Total.antt =====
-- A session's loop ends: each round takes a byte of the input at least.
use mathlib.Core.Bool.{true≢false}
use gonewsd.Prelude.{
  sym, ap, ◌∙◌, ℕ, zero, suc, ◌+◌, ◌≤◌, ◌<◌, ◌≡◌, refl, Bool, true, false, List, [], ◌∷◌, arith,
  length, Bytes,
}
use gonewsd.Nntp.Commands.Loop.{
  Command, command_of, dispatch, handle_fields, handle_line, End, out_of_fuel, Served,
  after_reaction, after_read, serve_onto, handle_conn, post, first_arg, other_args,
}
use gonewsd.Nntp.Commands.Posting.Rights.{post_command-left}
use gonewsd.Nntp.Session.{Server, Conn, new_conn, Reaction}
use gonewsd.Nntp.Wire.{Read, got, eof, read_line_raw}
use gonewsd.Nntp.Wire.Consuming.{left, read_line_raw-nil, read_line_raw-left}
use gonewsd.Spool.Disk.{Disk}

module _ (srv : Server) (remote : Bytes) where
  dispatch-left :
      (conn : Conn) (disk : Disk) (c : Command) (a b input : Bytes)
      → length (dispatch srv conn disk remote c a b input).1 ≤ length input
  dispatch-left conn disk post a b input = post_command-left srv conn disk remote input
  dispatch-left conn disk c a b input = omega arith

  handle_fields-left :
      (conn : Conn) (disk : Disk) (words : List Bytes) (input : Bytes)
      → length (handle_fields srv conn disk remote words input).1 ≤ length input
  unfolding handle_fields
  handle_fields-left conn disk [] input = omega arith
  handle_fields-left conn disk (cmd ∷ args) input =
      ground
        (arith, dispatch-left conn disk (command_of cmd) (first_arg args) (other_args args) input)

  handle_line-left :
      (conn : Conn) (disk : Disk) (text input : Bytes)
      → length (handle_line srv conn disk remote text input).1 ≤ length input
  unfolding handle_line
  handle_line-left conn disk text input = handle_fields-left conn disk _ input

abbrev is_out_of_fuel : End → Bool
is_out_of_fuel out_of_fuel = true
is_out_of_fuel _ = false

after_reaction-ends :
    (more : Conn → Disk → Bytes → Served) (bound : ℕ)
    → ((c : Conn) (d : Disk) (i : Bytes)
        → length i < bound
        → is_out_of_fuel (more c d i).end ≡ false)
    → (r : Reaction × Bytes) → length r.1 < bound
    → is_out_of_fuel (after_reaction more r).end ≡ false
after_reaction-ends more bound h (r, input) l = ground (arith, h r.conn r.disk input l)

after_read-ends :
    (handle : Bytes → Bytes → Served) (disk : Disk) (bound : ℕ)
    → ((text i : Bytes) → length i < bound → is_out_of_fuel (handle text i).end ≡ false)
    → (r : Read) → left r < bound
    → is_out_of_fuel (after_read handle disk r).end ≡ false
after_read-ends handle disk bound h (got text input) l = h text input l
after_read-ends handle disk bound h (eof _) l = refl

below : {a b c : ℕ} → a ≤ b → b < c → a < c
below h k = omega arith

serve_onto-ends :
    (f : ℕ) (srv : Server) (remote : Bytes) (conn : Conn) (disk : Disk) (input : Bytes)
    → length input < f
    → is_out_of_fuel (serve_onto f srv remote conn disk input).end ≡ false
unfolding serve_onto
serve_onto-ends zero srv remote conn disk input l = absurd (omega arith)
serve_onto-ends (suc f) srv remote conn disk [] l =
    ap
      (λ r.
        is_out_of_fuel
          (after_read
            (λ text rest.
              after_reaction (λ c d i. serve_onto f srv remote c d i)
                (handle_line srv conn disk remote text rest))
            disk r).end)
      read_line_raw-nil
serve_onto-ends (suc f) srv remote conn disk (x ∷ input) l =
    after_read-ends _ disk f
      (λ text i h.
        after_reaction-ends (λ c d i. serve_onto f srv remote c d i) f
          (λ c d i h. serve_onto-ends f srv remote c d i h)
          (handle_line srv conn disk remote text i)
          (below (handle_line-left srv remote conn disk text i) h))
      (read_line_raw (x ∷ input)) (below (read_line_raw-left x input) (omega arith))

-- The rounds that the model of `handleConn` has are enough: the session is over, or it stands in a
-- loop of a command that does not end.
handle_conn-ends :
    (srv : Server) (remote : Bytes) (disk : Disk) (input : Bytes)
    → ¬ ((handle_conn srv remote disk input).end ≡ out_of_fuel)
unfolding handle_conn
handle_conn-ends srv remote disk input e = true≢false (
    sym (ap is_out_of_fuel e)
    ∙ serve_onto-ends (length input + 1) srv remote new_conn disk input (omega arith))

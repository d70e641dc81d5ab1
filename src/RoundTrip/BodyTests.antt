-- ===== src/RoundTrip/BodyTests.antt =====
-- The theorems about bodies and their pieces at concrete requests.
use marte2hieratika.Base.{
  to_bytes, sym, ap, ◌∙◌, ℕ, zero, suc, ◌≤◌, ◌<◌, ◌≡◌, refl, true, false, List, [], ◌∷◌, ◌++◌, ◌⊎◌,
  Option, some, none, arith, replicate, take, drop, take-append-drop, append-nil, length,
  length-take, min, map,
}
use marte2hieratika.Marte.Plain.{plain}
use marte2hieratika.Marte.Socket.{TcpSocket}
use marte2hieratika.Subscriber.{PvDescriptor, no_pv}
use marte2hieratika.Receiver.{Receiver}
use marte2hieratika.Receiver.Store.{consume_step, find_index}
use marte2hieratika.Receiver.Service.{Service, serve_body, read_pieces}
use marte2hieratika.Receiver.Service.Round.{read_pieces_lem}
use marte2hieratika.Receiver.Samples.{
  two_variables, two_variables-IsStarted, sender_names, no_conversion,
}
use marte2hieratika.Sender.{PrioritySender}
use marte2hieratika.Sender.Message.{encode}
use marte2hieratika.Sender.Share.{list_positions}
use marte2hieratika.Sender.Send.{
  Sending, send_share, fragment, total_size, pieces, write_all, actual_size, send_fragment,
  send_fragments, next_variable, reset_offset, send_variable,
}
use marte2hieratika.Sender.Send.Whole.{FitsBlock, block_at, send_share_whole, pv_of}
use marte2hieratika.Sender.Request.{write_buffer}
use marte2hieratika.RoundTrip.{IsSendable}
use marte2hieratika.RoundTrip.Parse.{length-encode, block_header}
use marte2hieratika.RoundTrip.Sequence.{encode_all}
use marte2hieratika.RoundTrip.Partial.{step_partial}
use marte2hieratika.Receiver.Store.Whole.{IsRoomy}
use marte2hieratika.RoundTrip.Pieces.{AllDue, IsDue, Settled, settle}
use marte2hieratika.RoundTrip.Body.{Served, serve_body-encode_all}
use marte2hieratika.RoundTrip.Transfer.{
  share_blocks, first_of, buffer_accepts, serve_body-send_share,
}
use marte2hieratika.RoundTrip.Samples.{block_b, block_b-IsSendable, block_b-roomy}

-- A socket that gives at most five bytes at a time.
five_at_most : List ℕ → ℕ → Option (List ℕ) × List ℕ
five_at_most [] n = (none, [])
five_at_most (x ∷ xs) n = (some (take (min n 5) (x ∷ xs)), drop (min n 5) (x ∷ xs))

got : Option (List ℕ) → List ℕ
got none = []
got (some bs) = bs

is_there : Option (List ℕ) → ℕ
is_there none = 0
is_there (some bs) = 1

five_next :
    (t : List ℕ) (n : ℕ) (bs : List ℕ)
    → 0 < n
    → (five_at_most t n).0 ≡ some bs
    → (0 < length bs) × (length bs ≤ n) × (t ≡ bs ++ (five_at_most t n).1)
unfolding five_at_most got is_there
five_next [] n bs pos e = absurd (omega (arith, ap is_there e))
five_next (x ∷ xs) n bs pos e =
    let same : take (min n 5) (x ∷ xs) ≡ bs = ap got e in
    let size = length-take (min n 5) (x ∷ xs) in
    rw (← same)
      (omega (arith, size), omega (arith, size), sym (take-append-drop (min n 5) (x ∷ xs)))

five_succeeds :
    (t : List ℕ) (n : ℕ) → 0 < n → 0 < length t → (bs : List ℕ) × ((five_at_most t n).0 ≡ some bs)
unfolding five_at_most
five_succeeds [] n pos some_left = absurd (omega arith)
five_succeeds (x ∷ xs) n pos some_left = (take (min n 5) (x ∷ xs), refl)

abbrev trickle : TcpSocket
trickle = record {
  State = List ℕ;
  read = five_at_most;
  get_line = λ t. (none, t);
  pending = λ t. t;
  read_next = five_next;
  read_succeeds = five_succeeds;
}

read_pieces_lem_example :
    (t' : List ℕ) × (read_pieces trickle 8 (replicate 7 1 ++ (2 ∷ 3 ∷ [])) 7 (9 ∷ [])
      ≡ some (true, 9 ∷ replicate 7 1, t'))
    × (t' ≡ 2 ∷ 3 ∷ [])
read_pieces_lem_example =
    read_pieces_lem trickle 8 (replicate 7 1 ++ (2 ∷ 3 ∷ [])) (replicate 7 1) (2 ∷ 3 ∷ []) (9 ∷ [])
      (omega arith) refl

step_partial_example :
    (q : Receiver) × (consume_step plain no_conversion two_variables (take 5 (encode block_b)) 0
      ≡ (false, q, take 5 (encode block_b)))
    × ((q ≡ two_variables) ⊎ (q ≡ (find_index plain two_variables (block_header plain block_b)).0))
step_partial_example =
    step_partial plain no_conversion two_variables block_b block_b-IsSendable 0 5
      (omega (arith, length-encode two_variables block_b block_b-IsSendable))

block_b-IsDue : IsDue plain no_conversion sender_names two_variables block_b
block_b-IsDue = record { sendable = block_b-IsSendable; indexed = refl; roomy = block_b-roomy }

split_here : take 5 (encode block_b) ++ drop 5 (encode block_b) ≡ encode_all (block_b ∷ [])
unfolding encode_all
split_here = take-append-drop 5 (encode block_b) ∙ sym (append-nil (encode block_b))

settle_example :
    Settled plain no_conversion sender_names two_variables
      (take 5 (encode block_b))
      (drop 5 (encode block_b))
      (block_b ∷ [])
      6
      0
settle_example =
    settle plain no_conversion sender_names (block_b ∷ []) two_variables (take 5 (encode block_b))
      (drop 5 (encode block_b)) 6 0 two_variables-IsStarted (block_b-IsDue, tt) split_here
      (omega (arith, length-take 5 (encode block_b)))

abbrev body_b : List ℕ
body_b = encode_all (block_b ∷ block_b ∷ [])

serve_body-encode_all_example :
    (w : Service trickle) × (serve_body trickle plain no_conversion
        (λ line. none)
        false
        0
        (suc (length body_b))
        two_variables
        (body_b ++ (1 ∷ []))
        (length body_b)
      ≡ some w)
    × Served trickle plain no_conversion sender_names
        (λ line. none)
        0
        two_variables
        (block_b ∷ block_b ∷ [])
        (1 ∷ [])
        w
serve_body-encode_all_example =
    serve_body-encode_all trickle plain no_conversion sender_names (λ line. none) 0
      (suc (length body_b)) two_variables (body_b ++ (1 ∷ [])) (block_b ∷ block_b ∷ []) (1 ∷ [])
      two_variables-IsStarted (block_b-IsDue, (block_b-IsDue, tt)) refl (omega arith)

-- A sender of one variable, `B.V` of two bytes, at the start of its memory.
abbrev one_variable : PrioritySender
one_variable = record {
  index_list = 0 ∷ [];
  index_list_threads = 0 ∷ [];
  memory = [];
  memory_threads = 34 ∷ 58 ∷ replicate 8 7;
  change_flag = 0 ∷ [];
  number_of_variables = 1;
  current_idx = 0;
  current_idx_threads = 0;
  current_change_pos = 0;
  number_of_signal_to_be_sent = 1;
  number_of_pool_threads = 1;
  n_threads_finished = 0;
  chunck_counter = 0;
  number_of_chunks = 1;
  number_of_changed_variables = 1;
  max_bytes_per_cycle = 100;
  max_var_size = 100;
  chunk_size = 0;
  reset_counter = 1000;
  send_only_changed = 0;
}

abbrev one_pv : List PvDescriptor
one_pv =
    record no_pv {
      number_of_elements = 1;
      memory_size = 2;
      pv_name = 66 ∷ b'.' ∷ 86 ∷ [];
      type_id = 3;
    }
    ∷ []

one_fits : (j : ℕ) → j < 1 → FitsBlock one_variable (pv_of one_variable one_pv j)
unfolding total_size
one_fits zero h = record {
  elements = omega arith;
  element_size = omega arith;
  some_bytes = omega arith;
  one_block = omega arith;
}
one_fits (suc j) h = absurd (omega arith)

send_share_whole_example :
    (g : Sending (List ℕ)) × (send_share write_buffer one_variable one_pv 1 1 (first_of 0 1)
      ≡ some g)
    × (g.writer ≡ [] ++ encode_all (map (block_at one_variable one_pv) (list_positions 1 0 1)))
    × (g.cnt_variables ≡ 1)
    × (g.var_offset ≡ 0)
    × (g.ok ≡ true)
unfolding buffer_accepts
send_share_whole_example =
    send_share_whole write_buffer buffer_accepts one_variable one_pv 1 1 (first_of 0 1) one_fits
      (omega arith) (omega arith) refl (omega arith) refl refl refl

block_at-IsSendable : IsSendable two_variables (block_at one_variable one_pv 0)
unfolding fragment total_size
block_at-IsSendable = record {
  name_fits = omega arith;
  unquoted = (λ e. omega arith, (λ e. omega arith, (λ e. omega arith, tt)));
  unterminated = (λ e. omega arith, (λ e. omega arith, (λ e. omega arith, tt)));
  index_known = omega arith;
  variables_fit = omega arith;
  type_fits = omega arith;
  size_small = omega arith;
  offset_fits = omega arith;
  value_size = refl;
  timestamp_size = refl;
  message_fits = omega arith;
}

block_at-IsRoomy : IsRoomy two_variables (block_header plain (block_at one_variable one_pv 0))
unfolding fragment total_size
block_at-IsRoomy zero h e = (omega arith, omega arith)
block_at-IsRoomy (suc zero) h e = (omega arith, omega arith)
block_at-IsRoomy (suc (suc j)) h e = absurd (omega arith)

one_due :
    AllDue plain no_conversion sender_names two_variables (share_blocks one_variable one_pv 0 1)
unfolding fragment list_positions
one_due = (record { sendable = block_at-IsSendable; indexed = refl; roomy = block_at-IsRoomy }, tt)

-- What the sender of one variable writes.
abbrev sent_body : Sending (List ℕ)
sent_body = record {
  i = 1;
  var_offset = 0;
  list_index = 0;
  cnt_variables = 1;
  condition = false;
  ok = true;
  writer = encode_all (share_blocks one_variable one_pv 0 1);
}

one_sent : send_share write_buffer one_variable one_pv 1 1 (first_of 0 1) ≡ some sent_body
unfolding write_buffer encode encode_all to_bytes list_positions fragment total_size pieces
    write_all actual_size send_fragment send_fragments next_variable reset_offset send_variable
    send_share
one_sent = refl

serve_body-send_share_example :
    (w : Service trickle) × (serve_body trickle plain no_conversion
        (λ line. none)
        false
        0
        (suc (length sent_body.writer))
        two_variables
        (sent_body.writer ++ (1 ∷ []))
        (length sent_body.writer)
      ≡ some w)
    × Served trickle plain no_conversion sender_names
        (λ line. none)
        0
        two_variables
        (share_blocks one_variable one_pv 0 1)
        (1 ∷ [])
        w
serve_body-send_share_example =
    serve_body-send_share trickle plain no_conversion sender_names (λ line. none) one_variable
      one_pv 1 0 (suc (length sent_body.writer)) 0 two_variables (sent_body.writer ++ (1 ∷ []))
      (1 ∷ []) sent_body one_fits (omega arith) (omega arith) two_variables-IsStarted one_due
      one_sent refl (omega arith)

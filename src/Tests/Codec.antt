-- ===== src/Tests/Codec.antt =====
-- A codec for metadata, as another crate might give it: numbers and lengths in front of what they count.
use ignibyte_bridge.Prelude.{
  ◌≡◌, refl, ap, ◌∙◌, ℕ, zero, suc, ◌++◌, Option, none, some, List, [], ◌∷◌, Bytes, codes, length,
  take, drop, drop-append, Result, ok, bail,
}
use ignibyte_bridge.Session.World.{
  SessionMetadata, SessionStatus, starting, running, stopped, Json, RoundTrips,
}

put : Bytes → Bytes → Bytes
put s k = length s ∷ (s ++ k)

put_all : List Bytes → Bytes → Bytes
put_all [] k = k
put_all (s ∷ ss) k = put s (put_all ss k)

put_list : List Bytes → Bytes → Bytes
put_list ss k = length ss ∷ put_all ss k

put_number : Option ℕ → Bytes → Bytes
put_number none k = 0 ∷ k
put_number (some n) k = 1 ∷ n ∷ k

put_text : Option Bytes → Bytes → Bytes
put_text none k = 0 ∷ k
put_text (some s) k = 1 ∷ put s k

put_status : SessionStatus → Bytes → Bytes
put_status starting k = 0 ∷ k
put_status running k = 1 ∷ k
put_status stopped k = 2 ∷ k

abbrev R : Type 0
R = Result SessionMetadata

-- A parser hands what it read, and the rest, to what follows.
abbrev Parser : Type 0 → Type 0
Parser A = Bytes → (A → Bytes → R) → R

abbrev cut_short : R
cut_short = bail (codes "unexpected end of metadata")

nat : Parser ℕ
nat [] f = cut_short
nat (n ∷ r) f = f n r

text : Parser Bytes
text [] f = cut_short
text (n ∷ r) f = f (take n r) (drop n r)

texts : ℕ → Parser (List Bytes)
texts zero r f = f [] r
texts (suc n) r f = text r (λ s r'. texts n r' (λ ss r''. f (s ∷ ss) r''))

text_list : Parser (List Bytes)
text_list [] f = cut_short
text_list (n ∷ r) f = texts n r f

option_number : Parser (Option ℕ)
option_number (zero ∷ r) f = f none r
option_number (suc t ∷ n ∷ r) f = f (some n) r
option_number _ f = cut_short

option_text : Parser (Option Bytes)
option_text (zero ∷ r) f = f none r
option_text (suc t ∷ r) f = text r (λ s. f (some s))
option_text _ f = cut_short

session_status : Parser SessionStatus
session_status (zero ∷ r) f = f starting r
session_status (suc zero ∷ r) f = f running r
session_status (suc (suc n) ∷ r) f = f stopped r
session_status [] f = cut_short

take-append : (s k : Bytes) → take (length s) (s ++ k) ≡ s
take-append [] k = refl
take-append (x ∷ s) k = ap (λ t. x ∷ t) (take-append s k)

nat-put : (n : ℕ) (k : Bytes) (f : ℕ → Bytes → R) → nat (n ∷ k) f ≡ f n k
unfolding nat
nat-put n k f = refl

text-put : (s k : Bytes) (f : Bytes → Bytes → R) → text (put s k) f ≡ f s k
unfolding text put
text-put s k f = rw (take-append s k, drop-append s k) refl

texts-put :
    (ss : List Bytes) (k : Bytes) (f : List Bytes → Bytes → R)
    → texts (length ss) (put_all ss k) f ≡ f ss k
unfolding texts put_all
texts-put [] k f = refl
texts-put (s ∷ ss) k f = text-put s (put_all ss k) _ ∙ texts-put ss k (λ t r. f (s ∷ t) r)

list-put :
    (ss : List Bytes) (k : Bytes) (f : List Bytes → Bytes → R)
    → text_list (put_list ss k) f ≡ f ss k
unfolding text_list put_list
list-put ss k f = texts-put ss k f

number-put :
    (n : Option ℕ) (k : Bytes) (f : Option ℕ → Bytes → R) → option_number (put_number n k) f ≡ f n k
unfolding option_number put_number
number-put none k f = refl
number-put (some n) k f = refl

option_text-put :
    (s : Option Bytes) (k : Bytes) (f : Option Bytes → Bytes → R)
    → option_text (put_text s k) f ≡ f s k
unfolding option_text put_text
option_text-put none k f = refl
option_text-put (some s) k f = text-put s k _

status-put :
    (s : SessionStatus) (k : Bytes) (f : SessionStatus → Bytes → R)
    → session_status (put_status s k) f ≡ f s k
unfolding session_status put_status
status-put starting k f = refl
status-put running k f = refl
status-put stopped k f = refl

unfoldable pub encode : SessionMetadata → Bytes
unfolding put put_all put_list put_status put_number put_text
encode m = put m.name (
    put m.cwd (
      put_list m.command (
        put_status m.status (
          put_number m.supervisor_pid (
            put_number m.child_pid (
              put_number m.supervisor_start_time (
                put_number m.child_start_time (
                  m.generation
                  ∷ m.rows
                  ∷ m.cols
                  ∷ m.created_at_unix
                  ∷ m.updated_at_unix
                  ∷ put_text m.exit_status (put_number m.exit_code [])))))))))

pub decode : Bytes → R
decode r0 = text r0 λ name r1. text r1 λ cwd r2. text_list r2 λ command r3.
    session_status r3 λ status r4. option_number r4 λ supervisor_pid r5.
      option_number r5 λ child_pid r6. option_number r6 λ supervisor_start_time r7.
        option_number r7 λ child_start_time r8. nat r8 λ generation r9. nat r9 λ rows r10.
          nat r10 λ cols r11. nat r11 λ created r12. nat r12 λ updated r13.
            option_text r13 λ exit_status r14. option_number r14 λ exit_code r15. ok (record {
              name = name;
              cwd = cwd;
              command = command;
              status = status;
              supervisor_pid = supervisor_pid;
              child_pid = child_pid;
              supervisor_start_time = supervisor_start_time;
              child_start_time = child_start_time;
              generation = generation;
              rows = rows;
              cols = cols;
              created_at_unix = created;
              updated_at_unix = updated;
              exit_status = exit_status;
              exit_code = exit_code;
            })

pub decode-encode : (m : SessionMetadata) → decode (encode m) ≡ ok m
unfolding decode encode
decode-encode m = simp (text-put, list-put, status-put, number-put, nat-put, option_text-put)

abbrev pub codec : Json
codec = record { to_json = λ m. ok (encode m); from_json = decode }

pub codec-RoundTrips : RoundTrips codec
codec-RoundTrips m s e = let h : s ≡ encode m = cc in rw h (decode-encode m)

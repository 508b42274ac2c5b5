-- ===== src/Clean/Chunks.antt =====
-- `clean` over several chunks, and what it appends to `out`.
use ignibyte_bridge.Prelude.{
  [], ◌∷◌, ◌++◌, ◌≡◌, refl, sym, ap, ◌∙◌, append-nil, append_assoc, Bytes,
}
use ignibyte_bridge.Clean.{AnsiCleaner, step, clean}

-- What a run pushes, and the cleaner that it leaves.
unfoldable pub cleaned : AnsiCleaner → Bytes → Bytes
cleaned c [] = []
cleaned c (byte ∷ input) = (step c byte).1 ++ cleaned (step c byte).0 input

unfoldable pub cleaner_after : AnsiCleaner → Bytes → AnsiCleaner
cleaner_after c [] = c
cleaner_after c (byte ∷ input) = cleaner_after (step c byte).0 input

pub clean-cleaned :
    (c : AnsiCleaner) (input out : Bytes)
    → clean c input out ≡ (cleaner_after c input, out ++ cleaned c input)
unfolding clean cleaned cleaner_after
clean-cleaned c [] out = rw append-nil
clean-cleaned c (byte ∷ input) out =
    clean-cleaned (step c byte).0 input (out ++ (step c byte).1)
    ∙ ap (λ o. (cleaner_after (step c byte).0 input, o)) (append_assoc out _ _)

pub cleaned-append :
    (c : AnsiCleaner) (xs ys : Bytes)
    → cleaned c (xs ++ ys) ≡ cleaned c xs ++ cleaned (cleaner_after c xs) ys
unfolding cleaned cleaner_after
cleaned-append c [] ys = refl
cleaned-append c (x ∷ xs) ys =
    ap (◌++◌ (step c x).1) (cleaned-append (step c x).0 xs ys) ∙ sym (append_assoc (step c x).1 _ _)

pub cleaner_after-append :
    (c : AnsiCleaner) (xs ys : Bytes)
    → cleaner_after c (xs ++ ys) ≡ cleaner_after (cleaner_after c xs) ys
unfolding cleaner_after
cleaner_after-append c [] ys = refl
cleaner_after-append c (x ∷ xs) ys = cleaner_after-append (step c x).0 xs ys

-- Cleaning a stream chunk by chunk, in two calls split at any place, leaves the same cleaner and the
-- same output as one call over the whole stream.
pub clean-append :
    (c : AnsiCleaner) (xs ys out : Bytes)
    → clean c (xs ++ ys) out ≡ clean (clean c xs out).0 ys (clean c xs out).1
clean-append c xs ys out =
    rw (clean-cleaned c (xs ++ ys) out, clean-cleaned c xs out)
      (rw (clean-cleaned (cleaner_after c xs) ys (out ++ cleaned c xs))
        (rw (cleaner_after-append c xs ys, cleaned-append c xs ys, append_assoc out) refl))

-- The same where the first call writes to an empty buffer that is appended to `out` afterwards.
pub clean-chunk :
    (c : AnsiCleaner) (xs ys out : Bytes)
    → clean (clean c xs []).0 ys (out ++ (clean c xs []).1) ≡ clean c (xs ++ ys) out
clean-chunk c xs ys out =
    rw (clean-cleaned c xs [], clean-append c xs ys out, clean-cleaned c xs out) refl

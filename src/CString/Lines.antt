-- ===== src/CString/Lines.antt =====
-- Lines of words: the last word has the newline of its line.
use semestr.Prelude.{ℕ, ◌≡◌, ◌≢◌, refl, false, List, [], ◌∷◌, ◌++◌, append_assoc}
use semestr.CString.{Text, has}
use semestr.CString.Tokens.{Plain}
use semestr.CString.Words.{AllWords, join}

abbrev pub newline : Text
newline = 10 ∷ []

-- The words of a line, the last with the newline.
abbrev pub ended : List Text → List Text
ended [] = []
ended (w ∷ []) = (w ++ newline) ∷ []
ended (w ∷ v ∷ ws) = w ∷ ended (v ∷ ws)

pub join-ended : (c : ℕ) (ws : List Text) → ws ≢ [] → join c (ended ws) ≡ join c ws ++ newline
join-ended c [] h = absurd (h refl)
join-ended c (w ∷ []) h = refl
join-ended c (w ∷ v ∷ []) h = rw (append_assoc w (c ∷ v) newline) refl
join-ended c (w ∷ v ∷ u ∷ ws) h =
    rw (join-ended c (v ∷ u ∷ ws) (λ e. cc), append_assoc w (c ∷ join c (v ∷ u ∷ ws)) newline) refl

pub Plain-append : (d a b : Text) → Plain d a → Plain d b → Plain d (a ++ b)
Plain-append d [] b p q = q
Plain-append d (c ∷ cs) b p q = (p.0, Plain-append d cs b p.1 q)

append-newline_ne : (w : Text) → w ++ newline ≢ []
append-newline_ne [] e = cc
append-newline_ne (c ∷ cs) e = cc

pub AllWords-ended :
    (c : ℕ) (ws : List Text)
    → has (c ∷ []) 10 ≡ false
    → AllWords (c ∷ []) ws
    → AllWords (c ∷ []) (ended ws)
AllWords-ended c [] h all = tt
AllWords-ended c (w ∷ []) h all =
    (append-newline_ne w, Plain-append (c ∷ []) w newline all.1 (h, tt), tt)
AllWords-ended c (w ∷ v ∷ ws) h all = (all.0, all.1, AllWords-ended c (v ∷ ws) h all.2)

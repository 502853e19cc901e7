-- ===== src/E2db/Key/Paths.antt =====
-- `join` on parts that a path keeps as they are (pkg/e2db/key/key.go).
use e2d.E2db.Key.{split_slash, join_slash, resolve, filepath_join, clean, join}
use e2d.Prelude.{
  ℕ, ◌≡◌, refl, sym, ap, ◌∙◌, Bool, true, false, ◌||◌, false≢true, List, [], ◌∷◌, ◌++◌, append-nil,
  append_assoc, arith, ◌==◌, if◌then◌else◌, any, All, Text, codes, str_eq, has_prefix,
}

abbrev pub has_slash : Text → Bool
has_slash = any (λ c. c == b'/')

-- A part that is one whole step of a path.
pub record IsSegment (s : Text) : Type 0 where
  pub named : str_eq s [] ≡ false
  pub no_slash : has_slash s ≡ false
  pub not_dot : str_eq s (codes ".") ≡ false
  pub not_dots : str_eq s (codes "..") ≡ false

pub split_slash_one : (s : Text) → has_slash s ≡ false → split_slash s ≡ s ∷ []
unfolding split_slash
split_slash_one [] h = refl
split_slash_one (c ∷ s) h = ground (arith, split_slash_one s)

pub split_slash-append :
    (s t : Text) → has_slash s ≡ false → split_slash (s ++ b'/' ∷ t) ≡ s ∷ split_slash t
unfolding split_slash
split_slash-append [] t h = refl
split_slash-append (c ∷ s) t h = ground (arith, split_slash-append s t)

pub split_slash-join_slash :
    (s : Text) (ss : List Text)
    → All IsSegment (s ∷ ss)
    → split_slash (join_slash (s ∷ ss)) ≡ s ∷ ss
unfolding join_slash
split_slash-join_slash s [] h = split_slash_one s h.0.no_slash
split_slash-join_slash s (t ∷ ss) h =
    split_slash-append s (join_slash (t ∷ ss)) h.0.no_slash
    ∙ ap (◌∷◌ s) (split_slash-join_slash t ss h.1)

resolve-append :
    (rooted : Bool) (out ps : List Text) → All IsSegment ps → resolve rooted out ps ≡ out ++ ps
unfolding resolve
resolve-append rooted out [] h = sym (append-nil out)
resolve-append rooted out (p ∷ ps) h =
    rw (h.0.named, h.0.not_dot, h.0.not_dots)
      (resolve-append rooted (out ++ p ∷ []) ps h.1 ∙ append_assoc out (p ∷ []) ps)

join_step :
    (path : Text) (c : ℕ) (rest : Text)
    → path ≡ c ∷ rest
    → (c == b'/') ≡ false
    → (if has_prefix (codes "/") path then path else b'/' ∷ path) ≡ b'/' ∷ path
unfolding has_prefix
join_step [] c rest e h = cc
join_step (x ∷ path) c rest e h = ground arith

clean_segments :
    (path : Text) (c : ℕ) (rest q : Text) (qs : List Text)
    → path ≡ c ∷ rest
    → (c == b'/') ≡ false
    → split_slash path ≡ q ∷ qs
    → All IsSegment (q ∷ qs)
    → clean path ≡ join_slash (q ∷ qs)
unfolding clean
clean_segments [] c rest q qs p h e segs = cc
clean_segments (x ∷ path) c rest q qs p h e segs =
    let starts : (x == b'/') ≡ false = ground arith in
    rw (starts, e, resolve-append false [] (q ∷ qs) segs) refl

join_slash_first :
    (c : ℕ) (p : Text) (ss : List Text) → (rest : Text) × (join_slash ((c ∷ p) ∷ ss) ≡ c ∷ rest)
unfolding join_slash
join_slash_first c p [] = (p, refl)
join_slash_first c p (t ∷ ss) = (p ++ b'/' ∷ join_slash (t ∷ ss), refl)

pub filepath_join_segments :
    (s : Text) (ss : List Text)
    → All IsSegment (s ∷ ss)
    → filepath_join (s ∷ ss) ≡ join_slash (s ∷ ss)
unfolding filepath_join str_eq
filepath_join_segments [] ss h = absurd (false≢true (sym h.0.named))
filepath_join_segments (c ∷ p) ss h =
    let r = join_slash_first c p ss in
    clean_segments (join_slash ((c ∷ p) ∷ ss)) c r.0 (c ∷ p) ss r.1
      (first_byte (c == b'/') h.0.no_slash) (split_slash-join_slash (c ∷ p) ss h) h
  where
    first_byte : (b : Bool) → (b || has_slash p) ≡ false → b ≡ false
    first_byte true e = e
    first_byte false e = refl

-- Whole steps are joined with a slash before each of them.
pub join_segments :
    (s : Text) (ss : List Text)
    → All IsSegment (s ∷ ss)
    → join (s ∷ ss) ≡ b'/' ∷ join_slash (s ∷ ss)
unfolding join str_eq
join_segments [] ss h = absurd (false≢true (sym h.0.named))
join_segments (c ∷ p) ss h = rw (filepath_join_segments (c ∷ p) ss h) (
    join_step (join_slash ((c ∷ p) ∷ ss)) c (join_slash_first c p ss).0 (join_slash_first c p ss).1
      (ground (arith, h.0.no_slash)))

tail_of : Text → Text
tail_of [] = []
tail_of (c ∷ s) = s

-- Different lists of whole steps give different paths.
pub join_injective :
    (s : Text) (ss : List Text) (t : Text) (ts : List Text)
    → All IsSegment (s ∷ ss)
    → All IsSegment (t ∷ ts)
    → join (s ∷ ss) ≡ join (t ∷ ts)
    → ◌≡◌ {A = List Text} (s ∷ ss) (t ∷ ts)
unfolding tail_of
join_injective s ss t ts hs ht e =
    let bodies : join_slash (s ∷ ss) ≡ join_slash (t ∷ ts) =
      ap tail_of (sym (join_segments s ss hs) ∙ e ∙ join_segments t ts ht) in
    sym (split_slash-join_slash s ss hs) ∙ ap split_slash bodies ∙ split_slash-join_slash t ts ht

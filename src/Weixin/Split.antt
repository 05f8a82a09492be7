-- ===== src/Weixin/Split.antt =====
-- The parts of a long reply: `splitTextReply` of extensions/weixin/src/message.ts.
use Prim.Native.Char.{Char}
use pipee.Base.{
  ℕ, zero, suc, ◌≤◌, ◌<◌, ◌≡◌, refl, List, [], ◌∷◌, ◌++◌, map, String, arith, length, take, drop,
  take-append-drop, length-take, length-drop, All, subst, ap, ◌∙◌, sym,
}
use Prim.Native.String.append.{nil, cons}
use pipee.Base.Text.{◌<>◌}

abbrev pub ilink_text_chunk_limit : ℕ
ilink_text_chunk_limit = 4000

-- `Array.from` a text, its code points, and `join("")` back.
unfoldable pub scalars : String → List Char
scalars String.[] = []
scalars (String.◌∷◌ c s) = c ∷ scalars s

unfoldable pub of_scalars : List Char → String
of_scalars [] = ""
of_scalars (c ∷ cs) = String.◌∷◌ c (of_scalars cs)

unfoldable pub join : List String → String
join [] = ""
join (t ∷ ts) = t <> join ts

-- The loop over the offsets. Each round takes at least one, so that the length is enough fuel.
unfoldable pub chunks {ℓ} : {A : Type ℓ} → ℕ → List A → List (List A)
chunks zero xs = []
chunks (suc fuel) [] = []
chunks (suc fuel) (x ∷ xs) =
    take ilink_text_chunk_limit (x ∷ xs) ∷ chunks fuel (drop ilink_text_chunk_limit (x ∷ xs))

abbrev pub or_empty : List String → List String
or_empty [] = "" ∷ []
or_empty (t ∷ ts) = t ∷ ts

unfoldable pub split_text_reply : String → List String
split_text_reply text =
    let parts = scalars text in or_empty (map of_scalars (chunks (length parts) parts))

-- Chunks put together again.
abbrev flat {ℓ} : {A : Type ℓ} → List (List A) → List A
flat [] = []
flat (xs ∷ xss) = xs ++ flat xss

flat-chunks {ℓ} :
    {A : Type ℓ} (fuel : ℕ) (xs : List A) → length xs ≤ fuel → flat (chunks fuel xs) ≡ xs
unfolding chunks
flat-chunks zero [] h = refl
flat-chunks zero (x ∷ xs) h = absurd (omega (arith, h))
flat-chunks (suc fuel) [] h = refl
flat-chunks (suc fuel) (x ∷ xs) h =
    let l = x ∷ xs in
    ap (λ ys. take ilink_text_chunk_limit l ++ ys)
      (flat-chunks fuel (drop ilink_text_chunk_limit l)
        (omega (arith, h, length-drop ilink_text_chunk_limit l)))
    ∙ take-append-drop ilink_text_chunk_limit l

of_scalars-scalars : (s : String) → of_scalars (scalars s) ≡ s
unfolding scalars of_scalars
of_scalars-scalars String.[] = refl
of_scalars-scalars (String.◌∷◌ c s) = ap (λ r. String.◌∷◌ c r) (of_scalars-scalars s)

of_scalars-append : (xs ys : List Char) → of_scalars (xs ++ ys) ≡ of_scalars xs <> of_scalars ys
unfolding of_scalars
of_scalars-append [] ys = sym (nil (of_scalars ys))
of_scalars-append (x ∷ xs) ys =
    ap (λ r. String.◌∷◌ x r) (of_scalars-append xs ys)
    ∙ sym (cons x (of_scalars xs) (of_scalars ys))

join-map : (xss : List (List Char)) → join (map of_scalars xss) ≡ of_scalars (flat xss)
unfolding join of_scalars
join-map [] = refl
join-map (xs ∷ xss) =
    ap (λ t. of_scalars xs <> t) (join-map xss) ∙ sym (of_scalars-append xs (flat xss))

count-chunks {ℓ} :
    {A : Type ℓ} (fuel : ℕ) (xs : List A)
    → All (λ c. (0 < length c) × (length c ≤ ilink_text_chunk_limit)) (chunks fuel xs)
unfolding chunks
count-chunks zero xs = tt
count-chunks (suc fuel) [] = tt
count-chunks (suc fuel) (x ∷ xs) =
    let l = x ∷ xs in
    (
      (
        omega (arith, length-take ilink_text_chunk_limit l),
        omega (arith, length-take ilink_text_chunk_limit l),
      ),
      count-chunks fuel (drop ilink_text_chunk_limit l),
    )

scalars-of_scalars : (cs : List Char) → scalars (of_scalars cs) ≡ cs
unfolding scalars of_scalars
scalars-of_scalars [] = refl
scalars-of_scalars (c ∷ cs) = ap (λ r. c ∷ r) (scalars-of_scalars cs)

-- A part of a reply fits a message.
abbrev pub IsFit : String → Type 0
IsFit t = length (scalars t) ≤ ilink_text_chunk_limit

map-IsFit :
    (xss : List (List Char))
    → All (λ c. (0 < length c) × (length c ≤ ilink_text_chunk_limit)) xss
    → All IsFit (map of_scalars xss)
map-IsFit [] h = tt
map-IsFit (xs ∷ xss) h = (
  subst (λ cs. length cs ≤ ilink_text_chunk_limit) (sym (scalars-of_scalars xs)) h.0.1,
  map-IsFit xss h.1,
)

or_empty-join : (ts : List String) → join (or_empty ts) ≡ join ts
unfolding join
or_empty-join [] = refl
or_empty-join (t ∷ ts) = refl

or_empty-IsFit : (ts : List String) → All IsFit ts → All IsFit (or_empty ts)
unfolding scalars
or_empty-IsFit [] h = (omega arith, tt)
or_empty-IsFit (t ∷ ts) h = h

-- The parts of a reply, joined, are the reply, and each of them fits a message.
pub join-split_text_reply :
    (text : String) → (join (split_text_reply text) ≡ text) × All IsFit (split_text_reply text)
unfolding split_text_reply
join-split_text_reply text =
    let parts = scalars text in
    let cut = chunks (length parts) parts in
    (
      or_empty-join (map of_scalars cut)
          ∙ join-map cut
          ∙ ap of_scalars (flat-chunks (length parts) parts (omega arith))
          ∙ of_scalars-scalars text,
      or_empty-IsFit (map of_scalars cut) (map-IsFit cut (count-chunks (length parts) parts)),
    )

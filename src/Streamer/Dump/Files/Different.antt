-- ===== src/Streamer/Dump/Files/Different.antt =====
-- The names of graphs with different numbers.
use my_stream_out_app.Base.{
  drop-length, get_elem?, ℕ, zero, suc, ◌+◌, ◌<◌, ◌≡◌, ◌≢◌, sym, ap, ◌∙◌, Option, some, List, [],
  ◌∷◌, ◌++◌, drop, length, arith, All,
}
use my_stream_out_app.Base.Text.{Text, codes}
use my_stream_out_app.Base.Decimal.{decimal, digits}
use my_stream_out_app.Streamer.Dump.Dot.{DotAnswers}
use my_stream_out_app.Streamer.Dump.Files.{graph_name, graph_names, Distinct, left}

-- The digit that tells a name from another.
digit : (n : ℕ) → n < 10 → decimal n ≡ (b'0' + n) ∷ []
unfolding decimal digits
digit n h = ground arith

-- The byte of a name after the directory and the fixed words.
number_byte : Text → Text → Option ℕ
number_byte dir name = get_elem? (drop (length dir) name) 22

number_byte-graph_name :
    (dir : Text) (n : ℕ) (a : DotAnswers)
    → n < 10
    → number_byte dir (graph_name dir n a) ≡ some (b'0' + n)
unfolding number_byte
number_byte-graph_name dir n a h =
    ap (λ t. get_elem? t 22) (drop-length dir _)
    ∙ ap
        (λ (t : Text).
          get_elem?
            (codes "gst-pipeline-periodic-" ++ (t ++ (codes "." ++ (a.timestamp ++ codes ".dot"))))
            22)
        (digit n h)

graph_name-differ :
    (dir : Text) (m n : ℕ) (a b : DotAnswers)
    → m < 10
    → n < 10
    → m ≢ n
    → graph_name dir m a ≢ graph_name dir n b
graph_name-differ dir m n a b h k d e =
    let q : some (b'0' + m) ≡ some (b'0' + n) =
      sym (number_byte-graph_name dir m a h)
      ∙ ap (number_byte dir) e
      ∙ number_byte-graph_name dir n b k in
    absurd (ground arith)

-- No name is one of later numbers.
later-All :
    (dir : Text) (m : ℕ) (a : DotAnswers) (ns : List ℕ) (bs : List DotAnswers)
    → m < 10
    → All (λ n. (m ≢ n) × (n < 10)) ns
    → All (λ u. graph_name dir m a ≢ u) (graph_names dir ns bs)
later-All dir m a [] bs h k = tt
later-All dir m a (n ∷ ns) [] h k = tt
later-All dir m a (n ∷ ns) (b ∷ bs) h ((d, l), k) =
    (graph_name-differ dir m n a b h l d, later-All dir m a ns bs h k)

pub Rising : List ℕ → Type 0
Rising [] = Unit
Rising (n ∷ ns) = (n < 10) × All (λ k. (n ≢ k) × (k < 10)) ns × Rising ns

pub graph_names-Distinct :
    (dir : Text) (ns : List ℕ) (bs : List DotAnswers) → Rising ns → Distinct (graph_names dir ns bs)
unfolding Rising
graph_names-Distinct dir [] bs h = tt
graph_names-Distinct dir (n ∷ ns) [] h = tt
graph_names-Distinct dir (n ∷ ns) (b ∷ bs) (h, k, r) =
    (later-All dir n b ns bs h k, graph_names-Distinct dir ns bs r)

pub left-Rising : (c : ℕ) → Rising (left c)
unfolding Rising
left-Rising zero = (omega arith)
left-Rising (suc zero) = (omega arith)
left-Rising (suc (suc zero)) = (omega arith)
left-Rising (suc (suc (suc zero))) = tt
left-Rising (suc (suc (suc (suc c)))) = tt

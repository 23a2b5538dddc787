-- ===== src/Conversion/Codec.antt =====
-- A way to write maps of texts and to read them back, for the tests.
use Prim.Native.Char.{code, Char}
use clusterrouter.Base.{String, ◌≡◌, ◌≢◌, refl, ap, ◌∙◌, List, [], ◌∷◌, Map, ◌==◌, if◌then◌else◌}

-- Every character behind an `x`, and an `e` behind each text.
abbrev write_text : String → String → String
write_text String.[] rest = String.◌∷◌ "e" rest
write_text (String.◌∷◌ c s) rest = String.◌∷◌ "x" (String.◌∷◌ c (write_text s rest))

abbrev pub write_map : Map String → String
write_map [] = "m"
write_map ((k, v) ∷ m) = write_text k (write_text v (write_map m))

abbrev prepend : Char → List String → List String
prepend c [] = []
prepend c (s ∷ l) = String.◌∷◌ c s ∷ l

abbrev read_texts : String → List String
read_texts String.[] = []
read_texts (String.◌∷◌ c String.[]) = []
read_texts (String.◌∷◌ c (String.◌∷◌ d rest)) =
    let texts = read_texts (String.◌∷◌ d rest) in
    let shorter = read_texts rest in if code c == b'e' then "" ∷ texts else prepend d shorter

abbrev pairs : List String → Map String
pairs (k ∷ v ∷ l) = (k, v) ∷ pairs l
pairs (k ∷ []) = []
pairs [] = []

abbrev pub read_map : String → Map String
read_map s = pairs (read_texts s)

write_text-full : (s rest : String) → write_text s rest ≢ ""
write_text-full String.[] rest = λ e. cc
write_text-full (String.◌∷◌ c s) rest = λ e. cc

pub write_map-full : (m : Map String) → write_map m ≢ ""
write_map-full [] = λ e. cc
write_map-full ((k, v) ∷ m) = write_text-full k (write_text v (write_map m))

read_texts-write_text :
    (s rest : String) → rest ≢ "" → read_texts (write_text s rest) ≡ s ∷ read_texts rest
read_texts-write_text String.[] String.[] h = absurd (h refl)
read_texts-write_text String.[] (String.◌∷◌ d rest) h = refl
read_texts-write_text (String.◌∷◌ c s) rest h = ap (prepend c) (read_texts-write_text s rest h)

pub read_map-write_map : (m : Map String) → read_map (write_map m) ≡ m
read_map-write_map [] = refl
read_map-write_map ((k, v) ∷ m) =
    ap pairs (
      read_texts-write_text k (write_text v (write_map m)) (write_text-full v (write_map m))
      ∙ ap (λ l. k ∷ l) (read_texts-write_text v (write_map m) (write_map-full m)))
    ∙ ap (λ l. (k, v) ∷ l) (read_map-write_map m)

-- ===== src/Models/Evidence/Lookup.antt =====
-- Looking evidence up by its id.
use evidence_tool.Base.{String, ◌≡◌, refl, some, List, [], ◌∷◌, ◌++◌, ◌==◌, if◌then◌else◌}
use evidence_tool.Base.Dict.{Dict, lookup, insert, lookup-insert}
use evidence_tool.Models.Evidence.{Evidence, evidence_id, index_from, by_id}

index_from-append :
    (d : Dict Evidence) (es : List Evidence) (e : Evidence)
    → index_from d (es ++ e ∷ []) ≡ insert (evidence_id e) e (index_from d es)
unfolding index_from
index_from-append d [] e = refl
index_from-append d (x ∷ es) e = index_from-append (insert (evidence_id x) x d) es e

-- The last evidence of an id is the one that counts.
pub lookup-by_id_append :
    (k : String) (es : List Evidence) (e : Evidence)
    → lookup k (by_id (es ++ e ∷ [])) ≡ (if k == evidence_id e then some e else lookup k (by_id es))
lookup-by_id_append k es e =
    rw (index_from-append [] es e) (lookup-insert k (evidence_id e) e (by_id es))

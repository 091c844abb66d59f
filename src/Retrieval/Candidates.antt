-- ===== src/Retrieval/Candidates.antt =====
-- The values that the retrieval stages hand on: src/retrieval/retrieval.port.ts and
-- src/l0/ports/evidence-lookup.port.ts.
use dhund_research_ai.Base.{Runtime, List, Option, String}

pub data RetrievalArm : Type 0 where
  vector fts : RetrievalArm

pub data QualityAnnotation : Type 0 where
  body_grounded metadata_only : QualityAnnotation

pub data EvidenceStanceValue : Type 0 where
  supports contradicts neutral unresolved : EvidenceStanceValue

pub record EvidenceLookupRow (js : Runtime) : Type 0 where
  pub id : String
  pub chunk_id : String
  pub source_id : String
  pub stance : EvidenceStanceValue
  pub quality_score : js.Score
  pub type : QualityAnnotation

pub record SourceLookupRow : Type 0 where
  pub id : String
  pub document_id : String

pub record EvidenceLookupResult (js : Runtime) : Type 0 where
  pub evidence : List (EvidenceLookupRow js)
  pub sources : List SourceLookupRow

pub record RetrievalCandidate (js : Runtime) : Type 0 where
  pub chunk_id : String
  pub project_id : String
  pub document_id : String
  pub text : String
  pub arm : RetrievalArm
  pub vector_score : Option js.Score
  pub fts_score : Option js.Score

pub record RankedCandidate (js : Runtime) : Type 0 where
  pub chunk_id : String
  pub project_id : String
  pub document_id : String
  pub text : String
  pub rrf_score : js.Score
  pub rerank_score : js.Score
  pub vector_score : Option js.Score
  pub fts_score : Option js.Score

-- A ranked candidate, with the evidence that is mapped onto it.
pub record SearchCandidate (js : Runtime) : Type 0 where
  pub ranked : RankedCandidate js
  pub open ranked use *
  pub source_id : String
  pub evidence_refs : List String
  pub quality_annotation : QualityAnnotation

-- ===== src/Acp/Output/Finish.antt =====
-- `finish` of src/acp/output_stream.rs.
use mathlib.Core.List.{flatten}
use guigu_agent_bridge.Prelude.{◌≡◌, Option, none, some, Result, ok, err, length}
use guigu_agent_bridge.Prelude.Texts.{Text, codes}
use guigu_agent_bridge.Acp.Output.{OutputSpoolError, identity, DurableOutputPolicy}
use guigu_agent_bridge.Acp.Output.Publisher.{Outside, Publisher, Step}
use guigu_agent_bridge.Acp.Output.Segments.{segments_of}
use guigu_agent_bridge.Acp.Output.Written.{Post}

module _ {W : Type 0} (outside : Outside W) (policy : DurableOutputPolicy) where
  -- The files' contents joined are the text. After them the manifest with the text's size and hash and
  -- with the files' names, bytes and hashes was published, and at last the set was sealed.
  pub record IsSealed (text : Text) (p : Publisher W) : Type 0 where
    pub whole : flatten p.files ≡ text
    pub world : W
    pub manifest_world : W
    pub json : Text
    pub manifest :
        outside.manifest_json
          (length text)
          (outside.hash text)
          (segments_of outside policy 0 0 p.files)
        ≡ some json
    pub manifest_file :
        outside.publish_file (codes "manifest-v1.json") json world ≡ (ok tt, manifest_world)
    pub seal :
        outside.seal_set (length text) (outside.hash text) p.deliveries manifest_world
        ≡ (ok tt, p.outer)

  -- What a call that succeeded did.
  pub record Called (f : W → Result (Unit {0}) OutputSpoolError × W) (p q : Publisher W)
      : Type 0 where
    pub did : f p.outer ≡ (ok tt, q.outer)
    pub same_files : q.files ≡ p.files
    pub same_deliveries : q.deliveries ≡ p.deliveries
    pub same_total : q.total ≡ p.total

  abbrev manifest_of : Publisher W → Option Text
  manifest_of p = outside.manifest_json p.total (outside.hash p.aggregate) p.segments

  -- How `finish` ends: sealed or with an error of the files or the store; or the manifest of all of
  -- the text's files has no JSON, and neither it nor the set was published.
  pub data Finished (text : Text) (r : Step outside policy) : Type 0 where
    sealed_or_failed : Post outside policy (IsSealed text) r → Finished text r
    unwritten :
        (p : Publisher W)
        → flatten p.files ≡ text
        → outside.manifest_json
            (length text)
            (outside.hash text)
            (segments_of outside policy 0 0 p.files)
          ≡ none
        → r ≡ (err identity, p)
        → Finished text r

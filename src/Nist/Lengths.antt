-- ===== src/Nist/Lengths.antt =====
-- modules/trng/tools/nist_sts.py: what `test_non_overlapping_template` does not look at.
use risc_v_so_c.Base.{ℕ, ◌<◌, ◌≡◌, refl, List, length}
use risc_v_so_c.Base.Floats.{Floats}
use risc_v_so_c.Nist.Template.{block_size, template_counts-zero}
use risc_v_so_c.Nist.Suite.{test_non_overlapping_template}

-- With a template of more than eight bits, as the default of ten bits is, the statistic and the p-value
-- of `test_non_overlapping_template` are the same for all bits of one length.
pub test_non_overlapping_template-same :
    (F : Floats) (template bits others : List ℕ)
    → block_size < length template
    → length bits ≡ length others
    → test_non_overlapping_template F bits template
      ≡ test_non_overlapping_template F others template
unfolding test_non_overlapping_template
test_non_overlapping_template-same F template bits others h same =
    rw (template_counts-zero template bits h, template_counts-zero template others h, same) refl

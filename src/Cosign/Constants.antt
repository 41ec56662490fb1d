-- ===== src/Cosign/Constants.antt =====
-- src/cosign/constants.rs: the OIDs of the extensions, the media type and the annotations of cosign.
use sigstore_rs.Prelude.{String}

abbrev pub sigstore_issuer_oid : String
sigstore_issuer_oid = "1.3.6.1.4.1.57264.1.1"

abbrev pub sigstore_github_workflow_trigger_oid : String
sigstore_github_workflow_trigger_oid = "1.3.6.1.4.1.57264.1.2"

abbrev pub sigstore_github_workflow_sha_oid : String
sigstore_github_workflow_sha_oid = "1.3.6.1.4.1.57264.1.3"

abbrev pub sigstore_github_workflow_name_oid : String
sigstore_github_workflow_name_oid = "1.3.6.1.4.1.57264.1.4"

abbrev pub sigstore_github_workflow_repository_oid : String
sigstore_github_workflow_repository_oid = "1.3.6.1.4.1.57264.1.5"

abbrev pub sigstore_github_workflow_ref_oid : String
sigstore_github_workflow_ref_oid = "1.3.6.1.4.1.57264.1.6"

abbrev pub sigstore_oci_media_type : String
sigstore_oci_media_type = "application/vnd.dev.cosign.simplesigning.v1+json"

abbrev pub sigstore_signature_annotation : String
sigstore_signature_annotation = "dev.cosignproject.cosign/signature"

abbrev pub sigstore_bundle_annotation : String
sigstore_bundle_annotation = "dev.sigstore.cosign/bundle"

abbrev pub sigstore_cert_annotation : String
sigstore_cert_annotation = "dev.sigstore.cosign/certificate"

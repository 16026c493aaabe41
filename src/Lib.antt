-- ===== src/Lib.antt =====
-- SFA Enduro workflows: child workflows of Enduro that check and preserve the packages (SIPs) of the
-- Swiss Federal Archives, and a service that creates dissemination packages (DIPs) on request.
--
-- Parts and files.
--   Base, FilePath        shared names, texts and lists; path/filepath of Go on texts with `/`;
--                         FilePath.Names, FilePath.Bases: what it makes of paths of plain
--                         names.
--   Enums, Disk, Sip      internal/enums/sip_type.go, internal/fsutil/fsutil.go over a tree of files,
--                         and internal/sip/sip.go: New and the four layouts of a package.
--   Manifest              internal/manifest/manifest.go: Parse, over the tokens of encoding/xml.
--     Manifest.Document   metadata files as trees, with their tokens; Skipping, RoundTrip.
--     Manifest.Verify     internal/activities/verify_manifest.go, internal/checksum/checksum.go;
--                         Agreement, Documents: what a result without failures stands for.
--   Identifiers           internal/pips/pips.go, internal/identifiers/identifiers.go and
--                         internal/activities/write_identifier_file.go. Conversion: what is written;
--                         Placement: at which paths.
--   Structure             internal/activities/validate_structure.go. Scan, Directories: what the
--                         callback of the walk accumulates; Report: what the report stands for.
--   Formats               internal/fformat/fformat.go, internal/activities/validate_files.go and
--                         internal/fvalidate/verapdf_validator.go.
--   Apis                  internal/apis/custom_metadata.go: what preprocessing records for poststorage.
--     Apis.Requests       internal/apis/create_import_task_activity.go, create_import_run_activity.go;
--                         Defaults: what preprocessing reports for its replies.
--   Workflow              errors, results, and the events of the result of a child workflow.
--     Workflow.Reports    the tasks that are open, the verdict of a history, and the laws that are
--                         assumed of childwf.PreprocessingResult, a library.
--   Preprocessing         internal/workflows/preprocessing.go. A run is a state with the history of
--                         calls and reports, newest first; a step goes on, returns the result, or
--                         returns an error (Flow). Checks: extractSIP to the name of the package.
--                         Contents: manifest, formats, files, metadata. Import: createAPISImportTask
--                         and waitForAPISDecision. Preservation: writePREMISFile to the bag. Execute:
--                         the composition. Invariant: a Hoare logic for the steps, and its use.
--     Preprocessing.Import.Handover  what it leaves for the poststorage workflow.
--   Poststorage           internal/workflows/poststorage_apis.go and poststorage_cantons.go: Apis and
--                         Cantons, over a loop over sessions that both share (at most 5 sessions);
--                         Invariant: what such a loop keeps and concludes.
--   Dips.Datatypes        internal/dips/datatypes/dip.go, internal/dips/enums/dip_status.go.
--   Dips.Persistence      internal/dips/persistence/ent/client/dip.go: the transactions over a table of
--                         rows, with a record of the statements that fail. Pending, Requests, Updates:
--                         what holds of them.
--   Dips.UpdateDip        internal/dips/activities/update_dip.go; Lifecycle: the life of a DIP;
--                         Soundness: the table under requests, updates and removals in some order.
--   Dips.CreateDip        internal/dips/workflows/create_dip.go. Session: sessionHandler and the
--                         export with its attempts. Retention: deleteDIPAfterRetention. Execute:
--                         the rest, with its deferred functions.
--                         Bounds: the requests that a run makes. Cleanup: what it has done at its end;
--                         Cleanup.Tracking, Sessions, Body: the key that its state holds.
--   Dips.Service          internal/dips/service.go: Create and Show; Requests: what Create promises.
--   Dips.ParseMetadata    internal/dips/activities/parse_metadata.go. Locations, Matching: where the
--                         AIPs keep the files of an export.
--   Cantons               internal/cantons/parse.go: the scan of a METS file, over XML tokens.
--                         Document: METS files, with their tokens. Groups, Locations: what the scan
--                         finds in them.
--   Premis                internal/premis/premis.go, over the elements of etree (Elements). Places,
--                         Entities: the places of entities in a document; Order, Writing: how it is
--                         written.
--     Premis.Activities   internal/activities/add_premis_objects.go, add_premis_event.go,
--                         add_premis_validation_event.go and add_premis_agent.go, over the file
--                         premis.xml; Documents, Order: what they keep.
--   Polling               internal/apis/poll_import_task_status_activity.go,
--                         internal/apis/poll_import_run_status_activity.go: the loops over ticks;
--                         Completion: when such a loop ends, and with what.
--   Actapro               internal/actapro: create_export_activity.go, poll_export_status_activity.go,
--                         download_export_activity.go, get_document_activity.go. Export: the end of
--                         the poll. Document: the AIPs that a document names.
--   Amss                  internal/amss/fetch_aip_file.go, internal/amss/get_aip_path.go.
--   Tests                 runs at concrete inputs.
--
-- How the parts interact. Both workflows only call activities; what these answer is a field of the
-- Environment, a function of the history so far, so each run is considered for every possible
-- sequence of answers. The updates that CreateDip asks for are those of Dips.UpdateDip, which runs
-- its updater in UpdateDIP of Dips.Persistence, under the lock of the row.
--
-- Bounds and fuel. The loop deleteDIPAfterRetention has no bound in the code; the model takes a
-- number of rounds, one more than the updates that may still renew the DIP. The loops of Polling and
-- of the export of Actapro take a number of rounds as well, one more than the ticks at which the task
-- is waiting. The attempts (5 sessions, 3 exports) are the constants of the code. Times are native
-- numbers of nanoseconds, 0 for the zero time; texts are native strings.
--
-- The order in which Go ranges over a map is that of the list that stands for it.
--
-- Parameters: github.com/beevik/etree (Premis.Etree, with the laws IsEtree), the client that ogen
-- generates (what it answers to each request), the hash functions, UUIDs, clocks, the tokens of
-- encoding/xml and the childwf library.
--
-- Not modelled: logging, activity options and the retry policies of Temporal (an answer stands for
-- the last attempt), heartbeats, the decoding of XML, HTTP clients, what is written to a disk in place
-- (the transformation and the unpacking of a package, the layout of a DIP), configuration, generated
-- code (ent, goa, ogen) and the mock server. The activities are parameters of the workflows.
pub mod Base
pub mod FilePath
pub mod Enums
pub mod Disk
pub mod Sip
pub mod Workflow
pub mod Apis
pub mod Manifest
pub mod Identifiers
pub mod Structure
pub mod Formats
pub mod Preprocessing
pub mod Poststorage
pub mod Cantons
pub mod Premis
pub mod Polling
pub mod Actapro
pub mod Amss
pub mod Dips
pub mod Tests

-- ===== src/Lib.antt =====
-- HDDM, the Hierarchical Document Data Model: tools that store XML documents in a binary form after a
-- template, and print them again.
--
-- The program. A template is an XML element `HDDM` whose descendants are tags with typed attributes
-- and occurrence bounds. `xml-hddm` (src/xml-hddm.cpp) writes each document, or record, behind its
-- size: for each tag of the template the size of its instances, their number if the tag may repeat,
-- and for each instance its attributes in XDR form and its children. `hddm-xml` (src/hddm-xml.cpp)
-- reads such a stream, with records in between that switch compression and checksums, and prints XML.
-- `hddmcat` (src/hddmcat.cpp) concatenates streams with the same header. `hddm-c` (src/hddm-c.cpp)
-- checks a template and declares a C structure for each of its tags.
--
-- The files.
--   Prelude    numbers, texts, integers, lists, and their lemmas.
--   Outcome    how a run ends: a value, `exit(n)`, undefined behaviour.
--   Scalar     `atoi`, extraction from and insertion into C++ streams of integers.
--   Dom        documents as trees, and how the tools read an attribute's type and occurrence bounds.
--   Particle   `ParticleType` of src/particleType.h, and the searches by name of src/xml-hddm.cpp and of
--              src/hddm-cpp.cpp. Its children are the other functions of src/particleType.h: the
--              enumeration (Codes, Nuclei, Tables), names (EnumNames, EnumString, EvtGen, ShortName,
--              RootName, Abbreviation), Pdg, Charge, Classes, Multiplex. A switch is a table of its cases.
--   Readahead  the window of blocks of httpstream/httpstream.cpp and xrootdstream/xrootdstream.cpp, which
--              have the same code but for the request; a thread's request is taken where it is joined.
--   HttpStream, XrootdStream    the constructors and requests of the two. The servers are parameters.
--   ElementList    the class HDDM_ElementList of the generated C++ library, as src/hddm-cpp.cpp prints it.
--              Iterators are positions; the std::list that lists share is a field of the list at hand.
--   Sequencer  the streams of that library, from the same source: how records are written, and read by the
--              genes that `synthesize` makes of the file's header and the library's own. The tags of a
--              header are a tree, as `getTag` finds them by their indentation; `getEndTag` works on
--              the header's text, and where it leads elsewhere the model stops (`astray`).
--   XString    `basename` of src/XString.cpp.
--   Runtime    what the tools call: floating-point conversions and the XDR streams of xstream, as
--              parameters with the laws of RFC 1832 that the proofs use.
--   XmlHddm    `HDDMmaker::outputStream`, the writing of a record in `main`, and `constructDocument`, which
--              prints the header.
--   XmlRecords the loop of `main` in src/xml-hddm.cpp that splits the input text into records.
--   HddmXml    `XMLmaker::constructXML`. The countdown `size` and the input are the record Progress. The
--              reading of the header in `main` is in HddmXml/Header.
--   Stream     the record loop in `main` of src/hddm-xml.cpp. Its variables are the record Machine; the
--              file, the decompressors and the digest are the parameter Device.
--   Hddmcat    `main` of src/hddmcat.cpp.
--   HddmC      `checkConsistency`, `constructGroup`, `writeHeader` and the naming functions of src/hddm-c.cpp.
--   Template, Extent, Render    which templates store data, how large a document is in the binary form,
--              and what its printed form is, without reference to bytes: the specification.
--   RoundTrip  the theorems that join writer and reader: values, attributes, repeated tags, records,
--              streams.
--   Tests      a codec that meets the laws of Runtime, a template with documents, and the theorems there.
--
-- Conventions. An `int` that the code computes from a size is wrapped to 32 bits where it is stored
-- (`to_int32`); a size that only counts down is an unbounded integer. A variable read before it is set
-- is `fault`. Output that was printed before an `exit` is not kept in the result.
--
-- Fuel. `run` has one unit for each round of the record loop; the loop is shown to end with one round
-- per record and one more. `advance` has three units, and asks for two blocks at most. The fuel of
-- `split_records` is for its rounds and for those of the loops inside; more than the input has lines is
-- enough for whole records, and `unfinished` says that it ran out. `skip_quoted` has a unit for each
-- byte of the header, and goes on by two quotes with each.
-- `drain` stands for a reader that calls `underflow` until eof; one call more than the file has bytes
-- is shown to be enough. All other loops are structural.
--
-- Not modelled: the XML parser (Xerces), whose trees the model takes as given, with `getAttribute` as
-- the DOM standard states it; options and the opening of files (a failure is taken only in hddmcat);
-- what the code generators print, but for the element lists and the streaming of records, without
-- the text of `getTag`, buffers, compression and threads; masses of particles, which are
-- floating-point numbers; the destructors of the two streambufs; and the copies of xstream and md5.
pub mod Prelude
pub mod Outcome
pub mod Scalar
pub mod Dom
pub mod Particle
pub mod Runtime
pub mod XmlHddm
pub mod XmlRecords
pub mod HddmXml
pub mod Template
pub mod Render
pub mod Extent
pub mod RoundTrip
pub mod Stream
pub mod Hddmcat
pub mod HddmC
pub mod XString
pub mod Readahead
pub mod ElementList
pub mod Sequencer
pub mod HttpStream
pub mod XrootdStream
pub mod Tests
